-- ===== src/Console/Edit.antt =====
-- `consoleintr` on the line that is being typed.
use os_ass.Base.{
  ℕ, ◌-◌, ◌<◌, ◌≡◌, refl, ◌==◌, [], length, take, ◌||◌, subst, ap, sym, Bool-cases, inl, inr,
}
use os_ass.Console.{Input, ctrl_h, ctrl_p, ctrl_u, hear}
use os_ass.Console.Line.{Line, line, IsInput, edit_count}
use os_ass.Console.Erase.{empty_line, rub_out, kill_line_lem}
use os_ass.Console.Keep.{keep_lem}
use os_ass.Console.Typed.{rubouts, typed, rubbed}

nothing_typed : (l : Line) → l.edit ≡ [] → ([] ≡ rubouts (take 1 l.edit)) × (l ≡ rubbed l)
unfolding rubouts
nothing_typed l e = (
  ap (λ xs. rubouts (take 1 xs)) (sym e),
  subst (λ xs. Path Line (record l { edit = xs }) (record l { edit = take (length xs - 1) xs }))
      (sym e) refl,
)

-- One character from the keyboard does to the ring what it does to the finished lines and the line being typed:
-- control-U empties that line, and a backspace takes its last character, with a rubout on the screen for each; control-P
-- lists the processes; any other character but 0 is put at the end if fewer than 128 are held, with a return taken as a
-- newline. A newline, control-D or the 128th character finishes the line, and readers are woken. The ring stays valid.
pub hear_lem :
    (s : Input) (c : ℕ)
    → IsInput s
    → c < 256
    → IsInput (hear s c).1
      × ((hear s c).0 ≡ (typed (line s) c).0)
      × (line (hear s c).1 ≡ (typed (line s) c).1)
unfolding hear
hear_lem s c v byte = elim (Bool-cases (c == ctrl_p)) [
  | inl p ↦ rw p (v, refl, refl)
  | inr p ↦ elim (Bool-cases (c == ctrl_u)) [
    | inl u ↦ rw (p, u) (kill_line_lem (edit_count s) s v refl)
    | inr u ↦ elim (Bool-cases (c == ctrl_h || c == 127)) [
      | inl h ↦ elim (Bool-cases (s.e == s.w)) [
        | inl e ↦
            let (out, left) = nothing_typed (line s) (empty_line s e).0 in
            rw (p, u, h, e) (v, out, left)
        | inr e ↦ rw (p, u, h, e) (rub_out s v e)
      ]
      | inr h ↦ rw (p, u, h) (keep_lem s c v byte)
    ]
  ]
]
