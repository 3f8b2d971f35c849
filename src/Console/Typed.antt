-- ===== src/Console/Typed.antt =====
-- What a character from the keyboard does to the finished lines and the line being typed.
use os_ass.Base.{
  ℕ, ◌+◌, ◌-◌, ◌≡◌, ◌==◌, List, [], ◌∷◌, ◌++◌, length, take, not, ◌&&◌, ◌||◌, ltb, if◌then◌else◌,
}
use os_ass.Console.{
  Input, Event, consputc, wakeup, procdump, input_buf, newline, ctrl_d, ctrl_h, ctrl_p, ctrl_u,
  backspace,
}
use os_ass.Console.Line.{Line, line, IsInput}

-- one rubout for each character
unfoldable pub rubouts : List ℕ → List Event
rubouts [] = []
rubouts (c ∷ cs) = consputc backspace ∷ rubouts cs

-- a character at the end of the line
abbrev pub typed_on : Line → ℕ → List Event × Line
typed_on l typed =
    let c = if typed == 13 then newline else typed in
    let edit = l.edit ++ c ∷ [] in
    if c == newline || c == ctrl_d || length l.ready + length edit == input_buf
    then (consputc c ∷ wakeup ∷ [], record { ready = l.ready ++ edit; edit = [] })
    else (consputc c ∷ [], record l { edit = edit })

-- what a character does to the two lists
abbrev pub typed : Line → ℕ → List Event × Line
typed l c =
    if c == ctrl_p
    then (procdump ∷ [], l)
    else if c == ctrl_u
    then (rubouts l.edit, record l { edit = [] })
    else if c == ctrl_h || c == 127
    then (rubouts (take 1 l.edit), record l { edit = take (length l.edit - 1) l.edit })
    else if not (c == 0) && ltb (length l.ready + length l.edit) input_buf
    then typed_on l c
    else ([], l)

-- what a step of the code has to be, for `out` on the lists
abbrev pub Does : List Event × Input → List Event × Line → Type 0
Does step out = IsInput step.1 × (step.0 ≡ out.0) × (line step.1 ≡ out.1)

abbrev pub rubbed : Line → Line
rubbed l = record l { edit = take (length l.edit - 1) l.edit }
