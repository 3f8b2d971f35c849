-- ===== src/Console/Keep.antt =====
-- Other characters go to the end of the line being typed, and may finish it.
use os_ass.Base.{
  ℕ, suc, ◌+◌, ◌-◌, ◌%◌, ◌^◌, ◌≤◌, ◌<◌, ◌≡◌, ◌≢◌, refl, arith, ◌==◌, List, [], ◌∷◌, ◌++◌, length,
  u32, false, update, true, Bool, All, not, ◌&&◌, ◌||◌, ltb, if◌then◌else◌, subst, ap,
  length-append, sym, ◌∙◌, update_self, Bool-cases, All-append, inl, inr,
}
use os_ass.Console.{
  Input, Event, consputc, wakeup, input_buf, newline, ctrl_d, keep, store, commits,
}
use os_ass.Console.Line.{
  Line, line, window, IsInput, ready_count, edit_count, length-window, window-join, window-last,
  window-update, IsPlain,
}
use os_ass.Console.Typed.{typed_on, Does}

abbrev room : Input → ℕ
room s = ready_count s + edit_count s

counts :
    (s : Input)
    → IsInput s
    → (u32 (s.e + 2 ^ 32 - s.r) ≡ room s) × (length (line s).ready + length (line s).edit ≡ room s)
counts s v = (
  omega (arith, v.words, v.fits),
  omega (arith, length-window s.buf s.r (ready_count s), length-window s.buf s.w (edit_count s)),
)

stored :
    (s : Input) (c : ℕ)
    → IsInput s
    → ready_count s + edit_count s < input_buf
    → c < 256
    → ((line (store s c)).ready ≡ (line s).ready)
      × ((line (store s c)).edit ≡ (line s).edit ++ c ∷ [])
      × (edit_count (store s c) ≡ suc (edit_count s))
stored s c v less byte =
    let n = ready_count s in
    let m = edit_count s in
    let more : edit_count (store s c) ≡ suc m = omega (arith, v.words, v.fits) in
    let from_r : u32 (s.r + (n + m)) ≡ s.e = omega (arith, v.words, v.fits) in
    let from_w : u32 (s.w + m) ≡ s.e = omega (arith, v.words, v.fits) in
    let same : c % 256 ≡ c = omega arith in
    let b = update s.buf (s.e % input_buf) (c % 256) in
    let at : b (s.e % input_buf) ≡ c = update_self s.buf (s.e % input_buf) (c % 256) ∙ same in
    let old_edit : window b s.w m ≡ window s.buf s.w m =
      subst (λ j. window (update s.buf (j % input_buf) (c % 256)) s.w m ≡ window s.buf s.w m) from_w
        (window-update s.buf (c % 256) s.w m m (omega arith) (omega arith) v.words.1) in
    let old_ready : window b s.r n ≡ window s.buf s.r n =
      subst (λ j. window (update s.buf (j % input_buf) (c % 256)) s.r n ≡ window s.buf s.r n) from_r
        (window-update s.buf (c % 256) s.r n (n + m) (omega arith) less v.words.0) in
    let last : window b s.w (suc m) ≡ window b s.w m ++ b (s.e % input_buf) ∷ [] =
      subst (λ j. window b s.w (suc m) ≡ window b s.w m ++ b (j % input_buf) ∷ []) from_w
        (window-last b s.w m v.words.1) in
    (
      old_ready,
      ap (λ k. window b s.w k) more
          ∙ last
          ∙ ap (λ xs. xs ++ b (s.e % input_buf) ∷ []) old_edit
          ∙ ap (λ x. window s.buf s.w m ++ x ∷ []) at,
      more,
    )

-- `input.w = input.e`
abbrev commit : Input → Input
commit s = record s { w = s.e }

committed :
    (s : Input)
    → (s.r < 2 ^ 32) × (s.w < 2 ^ 32) × (s.e < 2 ^ 32)
    → ready_count s + edit_count s ≤ input_buf
    → IsInput (commit s)
      × (line (commit s) ≡ record { ready = (line s).ready ++ (line s).edit; edit = [] })
unfolding window
committed s words fits =
    let all : ready_count (commit s) ≡ ready_count s + edit_count s = omega (arith, words, fits) in
    let nothing : edit_count (commit s) ≡ 0 = omega (arith, words, fits) in
    let from_w : u32 (s.r + ready_count s) ≡ s.w = omega (arith, words, fits) in
    let joined =
      subst
        (λ j.
          window s.buf s.r (ready_count s + edit_count s)
          ≡ window s.buf s.r (ready_count s) ++ window s.buf j (edit_count s))
        from_w (window-join s.buf s.r (ready_count s) (edit_count s) words.0) in
    let empty : window s.buf s.e (edit_count (commit s)) ≡ [] = rw nothing refl in
    (
      record {
        words = (words.0, words.2, words.2);
        fits = omega (arith, all, nothing, fits);
        plain = subst (All IsPlain) (sym empty) tt;
      },
      ap
            (λ k. record {
              ready = window s.buf s.r k;
              edit = window s.buf s.e (edit_count (commit s));
            })
            all
          ∙ ap (λ xs. record { ready = window s.buf s.r (ready_count s + edit_count s); edit = xs })
              empty
          ∙ ap (λ xs. record { ready = xs; edit = [] }) joined,
    )

-- the test for the end of a line, on the lists
abbrev ends_line : Line → ℕ → Bool
ends_line l c =
    c == newline || c == ctrl_d || length l.ready + length (l.edit ++ c ∷ []) == input_buf

commits-ends_line :
    (s : Input) (c : ℕ)
    → IsInput s
    → ready_count s + edit_count s < input_buf
    → commits (store s c) c ≡ ends_line (line s) c
commits-ends_line s c v less =
    let lengths : length (line s).ready + length ((line s).edit ++ c ∷ []) ≡ room s + 1 =
      omega (arith, counts s v, length-append (line s).edit (c ∷ [])) in
    let full : (u32 (s.e + 1) == u32 (s.r + input_buf)) ≡ (room s + 1 == input_buf) =
      ground (arith, v.words, v.fits) in
    rw (full, lengths) refl

-- the two ends of `keep`
abbrev kept : Input → ℕ → Bool → List Event × Input
kept s c ends =
    if ends then (consputc c ∷ wakeup ∷ [], commit (store s c)) else (consputc c ∷ [], store s c)

abbrev kept_on : Line → ℕ → Bool → List Event × Line
kept_on l c ends =
    if ends
    then (consputc c ∷ wakeup ∷ [], record { ready = l.ready ++ (l.edit ++ c ∷ []); edit = [] })
    else (consputc c ∷ [], record l { edit = l.edit ++ c ∷ [] })

kept_lem :
    (s : Input) (c : ℕ) (ends : Bool)
    → IsInput s
    → ready_count s + edit_count s < input_buf
    → c < 256
    → (ends ≡ false → c ≢ newline)
    → Does (kept s c ends) (kept_on (line s) c ends)
kept_lem s c true v less byte plain =
    let (ready, edit, more) = stored s c v less byte in
    let (v1, e) =
      committed (store s c) (omega (arith, v.words)) (omega (arith, v.fits, more, less)) in
    (
      v1,
      refl,
      e
          ∙ ap (λ xs. record { ready = xs ++ (line (store s c)).edit; edit = [] }) ready
          ∙ ap (λ xs. record { ready = (line s).ready ++ xs; edit = [] }) edit,
    )
kept_lem s c false v less byte plain =
    let (ready, edit, more) = stored s c v less byte in
    (
      record {
        words = omega (arith, v.words);
        fits = omega (arith, v.fits, more, less);
        plain =
            subst (All IsPlain) (sym edit)
              (All-append IsPlain (line s).edit (c ∷ []) v.plain (plain refl, tt));
      },
      refl,
      ap (λ xs. record { ready = xs; edit = (line (store s c)).edit }) ready
          ∙ ap (λ xs. record { ready = (line s).ready; edit = xs }) edit,
    )

abbrev unreturned : ℕ → ℕ
unreturned c = if c == 13 then newline else c

pub keep_lem :
    (s : Input) (c : ℕ)
    → IsInput s
    → c < 256
    → Does (keep s c) (
        if not (c == 0) && ltb (length (line s).ready + length (line s).edit) input_buf
        then typed_on (line s) c
        else ([], line s))
unfolding keep
keep_lem s c v byte =
    let (wide, lengths) = counts s v in
    rw (wide, lengths)
      (elim (Bool-cases (not (c == 0) && ltb (room s) input_buf)) [
        | inl fits ↦
            let less : room s < input_buf = ground arith in
            let x = unreturned c in
            let stored_at_end =
              kept_lem s x (commits (store s x) x) v less (ground arith) (ground arith) in
            rw fits (
              subst (λ b. Does (kept s x (commits (store s x) x)) (kept_on (line s) x b))
                (commits-ends_line s x v less) stored_at_end)
        | inr full ↦ rw full (v, refl, refl)
      ])
