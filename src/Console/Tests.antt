-- ===== src/Console/Tests.antt =====
-- Small runs of the console.
use os_ass.Base.{◌≡◌, refl, arith, [], ◌∷◌, true, false, inl, ◌^◌, ◌≤◌, ◌-◌, ◌⊎◌, ◌<◌}
use os_ass.Console.{Input, consputc, hear, kill_line, keep, consoleintr, consoleread}
use os_ass.Console.Line.{line, window, IsInput}
use os_ass.Console.Typed.{typed}
use os_ass.Console.Edit.{hear_lem}
use os_ass.Console.Read.{DidRead, consoleread_lem}
use os_ass.Console.Print.{printint, printint_lem, Prints, print_digits}
use os_ass.Console.Screen.{Screen, Shows, cgaputc, cgaputc_lem}

-- `ab` typed just before the counters wrap
abbrev typing : Input
typing = record { buf = λ i. 97; r = 0xfffffffe; w = 0xffffffff; e = 1 }

typing-IsInput : IsInput typing
unfolding window
typing-IsInput = record { words = omega arith; fits = omega arith; plain = ground arith }

hear_lem_example :
    IsInput (hear typing 10).1
    × ((hear typing 10).0 ≡ (typed (line typing) 10).0)
    × (line (hear typing 10).1 ≡ (typed (line typing) 10).1)
hear_lem_example = hear_lem typing 10 typing-IsInput (omega arith)

-- control-D typed: a reader of five bytes gets one, and the rest of the line next time
consoleread_lem_example :
    let (bytes, ended, s1) = consoleread false 5 5 (hear typing 4).1 in
    IsInput s1
    × ((line s1).edit ≡ (line (hear typing 4).1).edit)
    × DidRead false 5 5 (line (hear typing 4).1).ready bytes ended (line s1).ready
consoleread_lem_example =
    consoleread_lem false 5 5 (hear typing 4).1 (hear_lem typing 4 typing-IsInput (omega arith)).0
      (omega arith)

read_to_eof : (consoleread false 5 5 (hear typing 4).1).0 ≡ 97 ∷ 97 ∷ 97 ∷ []
unfolding consoleread hear keep
read_to_eof = refl

typed_and_killed :
    (consoleintr typing (98 ∷ 21 ∷ [])).0
    ≡ consputc 98 ∷ consputc 256 ∷ consputc 256 ∷ consputc 256 ∷ []
unfolding consoleintr hear keep kill_line
typed_and_killed = refl

-- the last cell of the last line
abbrev last_cell : Screen
last_cell = record { crt = λ i. i; cursor = 1919 }

cgaputc_lem_example : Shows last_cell 65 (cgaputc last_cell 65)
cgaputc_lem_example = cgaputc_lem last_cell 65 (omega arith)

-- -1, as a word
printint_lem_example :
    (true ≡ true
      → 2 ^ 31 ≤ 0xffffffff
      → Prints 10 (b'-' ∷ []) (2 ^ 32 - 0xffffffff) (printint 0xffffffff 10 true))
    × ((true ≡ false) ⊎ (0xffffffff < 2 ^ 31)
        → Prints 10 [] 0xffffffff (printint 0xffffffff 10 true))
printint_lem_example = printint_lem 0xffffffff 10 true (omega arith) (inl refl)

minus_one : printint 0xffffffff 10 true ≡ b'-' ∷ b'1' ∷ []
unfolding printint print_digits
minus_one = refl

in_hex : printint 0x80f 16 false ≡ b'8' ∷ b'0' ∷ b'f' ∷ []
unfolding printint print_digits
in_hex = refl
