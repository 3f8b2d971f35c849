-- ===== src/Console/Erase.antt =====
-- The backspace and control-U take characters off the line being typed.
use os_ass.Base.{
  ℕ, zero, suc, ◌+◌, ◌-◌, ◌%◌, ◌≡◌, ◌≢◌, refl, arith, ◌==◌, List, [], ◌∷◌, ◌++◌, length, u32, false,
  true, All, take, subst, ap, length-append, sym, ◌∙◌,
}
use os_ass.Console.{Input, consputc, input_buf, newline, backspace, kill_line, back_up}
use os_ass.Console.Line.{line, window, IsInput, edit_count, window-last, IsPlain}
use os_ass.Console.Typed.{rubouts, Does, rubbed}

take-all : (xs ys : List ℕ) → take (length xs) (xs ++ ys) ≡ xs
take-all [] ys = refl
take-all (x ∷ xs) ys = ap (λ zs. x ∷ zs) (take-all xs ys)

take-append : (xs : List ℕ) (c : ℕ) → take (length (xs ++ c ∷ []) - 1) (xs ++ c ∷ []) ≡ xs
take-append xs c =
    let less : length (xs ++ c ∷ []) - 1 ≡ length xs = omega (arith, length-append xs (c ∷ [])) in
    rw less (take-all xs (c ∷ []))

All-last : (xs : List ℕ) (c : ℕ) → All IsPlain (xs ++ c ∷ []) → All IsPlain xs × IsPlain c
All-last [] c all = (all.1, all.0)
All-last (x ∷ xs) c all = let (rest, last) = All-last xs c all.1 in ((all.0, rest), last)

rubouts-last : (xs : List ℕ) (c : ℕ) → rubouts (xs ++ c ∷ []) ≡ consputc backspace ∷ rubouts xs
unfolding rubouts
rubouts-last [] c = refl
rubouts-last (x ∷ xs) c = rw (rubouts-last xs c) refl

-- the last character of a line that is not empty
edit-last :
    (s : Input)
    → IsInput s
    → (s.e == s.w) ≡ false
    → IsInput (back_up s)
      × ((line s).edit ≡ (line (back_up s)).edit ++ s.buf ((back_up s).e % input_buf) ∷ [])
      × (s.buf ((back_up s).e % input_buf) ≢ newline)
      × (edit_count s ≡ suc (edit_count (back_up s)))
edit-last s v some =
    let more : edit_count s ≡ suc (edit_count (back_up s)) = ground (arith, v.words, v.fits) in
    let at : u32 (s.w + edit_count (back_up s)) ≡ (back_up s).e = ground (arith, v.words, v.fits) in
    let split : (line s).edit ≡ (line (back_up s)).edit ++ s.buf ((back_up s).e % input_buf) ∷ [] =
      rw more (
        subst
          (λ j.
            window s.buf s.w (suc (edit_count (back_up s)))
            ≡ window s.buf s.w (edit_count (back_up s)) ++ s.buf (j % input_buf) ∷ [])
          at (window-last s.buf s.w (edit_count (back_up s)) v.words.1)) in
    let (plain, last) =
      All-last (line (back_up s)).edit (s.buf ((back_up s).e % input_buf))
        (subst (All IsPlain) split v.plain) in
    (
      record {
        words = omega (arith, v.words);
        fits = omega (arith, v.words, v.fits, more);
        plain = plain;
      },
      split,
      last,
      more,
    )

pub empty_line : (s : Input) → (s.e == s.w) ≡ true → ((line s).edit ≡ []) × (edit_count s ≡ 0)
unfolding window
empty_line s e = let nothing : edit_count s ≡ 0 = ground arith in (rw nothing refl, nothing)

one_rubout : (xs : List ℕ) (c : ℕ) → consputc backspace ∷ [] ≡ rubouts (take 1 (xs ++ c ∷ []))
unfolding rubouts
one_rubout [] c = refl
one_rubout (x ∷ xs) c = refl

pub rub_out :
    (s : Input)
    → IsInput s
    → (s.e == s.w) ≡ false
    → Does (consputc backspace ∷ [], back_up s) (rubouts (take 1 (line s).edit), rubbed (line s))
rub_out s v some =
    let (v1, split, last, more) = edit-last s v some in
    let c = s.buf ((back_up s).e % input_buf) in
    let xs = (line (back_up s)).edit in
    (
      v1,
      subst (λ ys. consputc backspace ∷ [] ≡ rubouts (take 1 ys)) (sym split) (one_rubout xs c),
      subst (λ ys. line (back_up s) ≡ record (line s) { edit = take (length ys - 1) ys })
          (sym split) (ap (λ ys. record (line s) { edit = ys }) (sym (take-append xs c))),
    )

kill_line-step :
    (n : ℕ) (s : Input)
    → (s.e == s.w) ≡ false
    → s.buf ((back_up s).e % input_buf) ≢ newline
    → kill_line (suc n) s
      ≡ (consputc backspace ∷ (kill_line n (back_up s)).0, (kill_line n (back_up s)).1)
unfolding kill_line
kill_line-step n s some last = ground arith

pub kill_line_lem :
    (n : ℕ) (s : Input)
    → IsInput s
    → n ≡ edit_count s
    → Does (kill_line n s) (rubouts (line s).edit, record (line s) { edit = [] })
unfolding kill_line rubouts window
kill_line_lem zero s v e =
    let (empty, none) = empty_line s (ground arith) in
    (v, ap rubouts (sym empty), ap (λ xs. record (line s) { edit = xs }) empty)
kill_line_lem (suc n) s v e =
    let some : (s.e == s.w) ≡ false = ground arith in
    let (v1, split, last, more) = edit-last s v some in
    let (v2, out, left) = kill_line_lem n (back_up s) v1 (omega (arith, e, more)) in
    let c = s.buf ((back_up s).e % input_buf) in
    subst (λ k. Does k (rubouts (line s).edit, record (line s) { edit = [] }))
      (sym (kill_line-step n s some last))
      (
        v2,
        ap (λ es. consputc backspace ∷ es) out
            ∙ sym (rubouts-last (line (back_up s)).edit c)
            ∙ ap rubouts (sym split),
        left,
      )
