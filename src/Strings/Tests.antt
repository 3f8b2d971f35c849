-- ===== src/Strings/Tests.antt =====
-- Runs of string.c on small memories.
use os_ass.Base.{ℕ, ◌+◌, ◌≡◌, refl, ◌-◌, ◌==◌, if◌then◌else◌, negsuc, some}
use os_ass.Strings.{memset, stosl, memmove, copy_down, strncmp, strlen, strlen_loop}
use os_ass.Strings.Move.{memmove_lem}

-- "ab" at 8, "abc" at 16, and 100, 101, … elsewhere
abbrev text : ℕ → ℕ
text a =
    if a == 8
    then b'a'
    else if a == 9
    then b'b'
    else if a == 10
    then 0
    else if a == 16
    then b'a'
    else if a == 17
    then b'b'
    else if a == 18
    then b'c'
    else if a == 19
    then 0
    else a + 100

memset_runs : memset text 0 0x1ff 4 3 ≡ 0xff
unfolding memset stosl
memset_runs = refl

memmove_runs : memmove text 9 8 3 11 ≡ 0
unfolding memmove copy_down
memmove_runs = refl

strncmp_runs : strncmp text 8 16 5 ≡ negsuc (b'c' - 1)
unfolding strncmp
strncmp_runs = refl

strlen_runs : strlen 10 text 16 ≡ some 3
unfolding strlen strlen_loop
strlen_runs = refl

memmove_lem_example : memmove text 9 8 3 10 ≡ b'b'
memmove_lem_example = memmove_lem text 9 8 3 10
