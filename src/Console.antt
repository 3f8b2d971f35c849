-- ===== src/Console.antt =====
-- console.c: the input of the console, a ring of 128 bytes with 32-bit counters that the keyboard edits line
-- by line, and the screen. `consoleintr` is one critical section; `consoleread` is modelled from one `acquire`
-- of `input.lock` to the next `release` or `sleep`, and a call that sleeps is resumed by the same function.
pub mod Screen
mod Print
pub mod Line
mod Typed
mod Erase
mod Keep
mod Edit
mod Read
mod Tests
use os_ass.Base.{
  ℕ, zero, suc, ◌+◌, ◌-◌, ◌%◌, ◌^◌, Bool, true, false, ◌&&◌, ◌||◌, not, List, [], ◌∷◌, ◌++◌, ltb,
  ◌==◌, if◌then◌else◌, update, u32,
}

abbrev pub input_buf : ℕ
input_buf = 128

pub record Input : Type 0 where
  pub buf : ℕ → ℕ
  pub r : ℕ
  pub w : ℕ
  pub e : ℕ

abbrev pub newline : ℕ
newline = 10

-- `C('D')`, and the other characters that the console treats in a way of its own
abbrev pub ctrl_d : ℕ
ctrl_d = 4

abbrev pub ctrl_h : ℕ
ctrl_h = 8

abbrev pub ctrl_p : ℕ
ctrl_p = 16

abbrev pub ctrl_u : ℕ
ctrl_u = 21

abbrev pub backspace : ℕ
backspace = 0x100

-- what `consoleintr` does besides: `consputc(c)`, `wakeup(&input.r)`, `procdump()`
pub data Event : Type 0 where
  consputc : ℕ → Event
  wakeup : Event
  procdump : Event

-- `input.e--`
abbrev pub back_up : Input → Input
back_up s = record s { e = u32 (s.e + 2 ^ 32 - 1) }

-- The loop for control-U, on fuel.
pub kill_line : ℕ → Input → List Event × Input
kill_line zero s = ([], s)
kill_line (suc fuel) s =
    let (out, s1) = kill_line fuel (back_up s) in
    if not (s.e == s.w) && not (s.buf ((back_up s).e % input_buf) == newline)
    then (consputc backspace ∷ out, s1)
    else ([], s)

-- `input.buf[input.e++ % INPUT_BUF] = c`
abbrev pub store : Input → ℕ → Input
store s c = record s { buf = update s.buf (s.e % input_buf) (c % 256); e = u32 (s.e + 1) }

-- whether `c`, just stored, ends a line
abbrev pub commits : Input → ℕ → Bool
commits s c = c == newline || c == ctrl_d || s.e == u32 (s.r + input_buf)

-- the default case
pub keep : Input → ℕ → List Event × Input
keep s typed =
    let c = if typed == 13 then newline else typed in
    let s1 = store s c in
    let added : List Event × Input =
      if commits s1 c
      then (consputc c ∷ wakeup ∷ [], record s1 { w = s1.e })
      else (consputc c ∷ [], s1) in
    if not (typed == 0) && ltb (u32 (s.e + 2 ^ 32 - s.r)) input_buf then added else ([], s)

-- One round of the loop of `consoleintr`. The ring has at most `u32 (e - w)` characters to kill.
pub hear : Input → ℕ → List Event × Input
hear s c =
    if c == ctrl_p
    then (procdump ∷ [], s)
    else if c == ctrl_u
    then kill_line (u32 (s.e + 2 ^ 32 - s.w)) s
    else if c == ctrl_h || c == 127
    then if s.e == s.w then ([], s) else (consputc backspace ∷ [], back_up s)
    else keep s c

-- `getc` gives the characters of the list, and then a negative number.
pub consoleintr : Input → List ℕ → List Event × Input
consoleintr s [] = ([], s)
consoleintr s (c ∷ cs) =
    let (out, s1) = hear s c in let (rest, s2) = consoleintr s1 cs in (out ++ rest, s2)

-- how a stretch of `consoleread` ends: with a result, with -1, or asleep with so many bytes to go
pub data Ended : Type 0 where
  returned : ℕ → Ended
  failed : Ended
  asleep : ℕ → Ended

-- With the `target` and the `n` that is left: the bytes copied to `dst`, how it ends, and the ring.
pub consoleread : Bool → ℕ → ℕ → Input → List ℕ × Ended × Input
consoleread killed target zero s = ([], returned target, s)
consoleread killed target (suc n) s =
    let c = s.buf (s.r % input_buf) in
    let s1 = record s { r = u32 (s.r + 1) } in
    let (cs, ended, s2) = consoleread killed target n s1 in
    if s.r == s.w
    then ([], if killed then failed else asleep (suc n), s)
    else if c == ctrl_d
    then (
      [],
      returned (target - suc n),
      if ltb (suc n) target then record s1 { r = u32 (s1.r + 2 ^ 32 - 1) } else s1,
    )
    else if c == newline
    then (c ∷ [], returned (target - n), s1)
    else (c ∷ cs, ended, s2)
