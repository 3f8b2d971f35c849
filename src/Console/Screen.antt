-- ===== src/Console/Screen.antt =====
-- console.c: the screen of 25 lines of 80 cells, and where the cursor stands.
use os_ass.Base.{
  ℕ, refl, ◌+◌, ◌-◌, ◌*◌, ◌%◌, ◌/◌, ◌^◌, ◌&&◌, ltb, leb, ◌==◌, if◌then◌else◌, update, not, ◌<◌, ◌≡◌,
  arith, ◌≤◌, ◌≢◌, true, dec_lt, false, update_self, subst, update_ne, ◌∙◌, sym,
}
use os_ass.Console.{newline, backspace}

pub record Screen : Type 0 where
  pub crt : ℕ → ℕ
  pub cursor : ℕ

-- 'black on white'
abbrev pub cell : ℕ → ℕ
cell c = 0x0700 + c % 256

-- the switch on the character: the cells and the position
pub place : Screen → ℕ → Screen
place s c =
    if c == newline
    then record s { cursor = s.cursor + (80 - s.cursor % 80) }
    else if c == backspace
    then record s { cursor = s.cursor - 1 }
    else record { crt = update s.crt s.cursor (cell c); cursor = s.cursor + 1 }

-- the last line is full: `memmove` of 23 lines and `memset` of the rest of the 24
pub scroll_up : Screen → Screen
scroll_up s =
    let pos = s.cursor - 80 in
    record {
      cursor = pos;
      crt = λ i.
          if leb pos i && ltb i (24 * 80)
          then 0
          else if ltb i (23 * 80)
          then s.crt (i + 80)
          else s.crt i;
    }

pub cgaputc : Screen → ℕ → Screen
cgaputc s c =
    let s1 = place s c in
    let s2 = if leb 24 (s1.cursor / 80) then scroll_up s1 else s1 in
    record { crt = update s2.crt s2.cursor (cell 32); cursor = s2.cursor % 2 ^ 16 }

-- where the cursor goes, before the screen scrolls
abbrev pub goes_to : Screen → ℕ → ℕ
goes_to s c =
    if c == newline
    then 80 * (s.cursor / 80 + 1)
    else if c == backspace
    then s.cursor - 1
    else s.cursor + 1

-- the cells with the character put in
abbrev pub cells_with : Screen → ℕ → ℕ → ℕ
cells_with s c i =
    if not (c == newline) && not (c == backspace) && i == s.cursor then cell c else s.crt i

-- `out` is the screen `s` after the character `c`
pub record Shows (s : Screen) (c : ℕ) (out : Screen) : Type 0 where
  pub on_screen : out.cursor < 24 * 80
  pub blank : out.crt out.cursor ≡ cell 32
  pub outside : (i : ℕ) → 24 * 80 ≤ i → out.crt i ≡ s.crt i
  pub stays :
      goes_to s c < 24 * 80
      → (out.cursor ≡ goes_to s c) × ((i : ℕ) → i ≢ out.cursor → out.crt i ≡ cells_with s c i)
  pub scrolls :
      24 * 80 ≤ goes_to s c
      → (out.cursor ≡ 23 * 80)
        × ((i : ℕ) → i < 23 * 80 → out.crt i ≡ cells_with s c (i + 80))
        × ((i : ℕ) → 23 * 80 < i → i < 24 * 80 → out.crt i ≡ 0)

place_lem :
    (s : Screen) (c i : ℕ)
    → ((place s c).cursor ≡ goes_to s c) × ((place s c).crt i ≡ cells_with s c i)
unfolding place
place_lem s c i = ground arith

goes_to-bound : (s : Screen) (c : ℕ) → s.cursor < 24 * 80 → goes_to s c ≤ 24 * 80
goes_to-bound s c lt = ground arith

cells_with-outside :
    (s : Screen) (c i : ℕ) → s.cursor < 24 * 80 → 24 * 80 ≤ i → cells_with s c i ≡ s.crt i
cells_with-outside s c i lt out = ground arith

-- the blank under the cursor
abbrev under_cursor : Screen → Screen
under_cursor s = record { crt = update s.crt s.cursor (cell 32); cursor = s.cursor % 2 ^ 16 }

scroll_up_lem :
    (s : Screen)
    → s.cursor ≡ 24 * 80
    → ((scroll_up s).cursor ≡ 23 * 80)
      × ((i : ℕ) → i < 23 * 80 → (scroll_up s).crt i ≡ s.crt (i + 80))
      × ((i : ℕ) → 23 * 80 ≤ i → i < 24 * 80 → (scroll_up s).crt i ≡ 0)
      × ((i : ℕ) → 24 * 80 ≤ i → (scroll_up s).crt i ≡ s.crt i)
unfolding scroll_up
scroll_up_lem s e =
    (omega arith, λ i lt. ground arith, λ i le lt. ground arith, λ i le. ground arith)

cgaputc-stays :
    (s : Screen) (c : ℕ) → goes_to s c < 24 * 80 → cgaputc s c ≡ under_cursor (place s c)
unfolding cgaputc
cgaputc-stays s c lt =
    let at = (place_lem s c 0).0 in
    let no : leb 24 ((place s c).cursor / 80) ≡ false = ground arith in rw no refl

cgaputc-scrolls :
    (s : Screen) (c : ℕ)
    → 24 * 80 ≤ goes_to s c
    → cgaputc s c ≡ under_cursor (scroll_up (place s c))
unfolding cgaputc
cgaputc-scrolls s c le =
    let at = (place_lem s c 0).0 in
    let full : leb 24 ((place s c).cursor / 80) ≡ true = ground arith in rw full refl

place-Shows :
    (s : Screen) (c : ℕ)
    → s.cursor < 24 * 80
    → goes_to s c < 24 * 80
    → Shows s c (under_cursor (place s c))
place-Shows s c lt here =
    let at = (place_lem s c 0).0 in
    let small : (place s c).cursor % 2 ^ 16 ≡ (place s c).cursor = omega (arith, at) in
    record {
      on_screen = omega (arith, at);
      blank = rw small (update_self (place s c).crt (place s c).cursor (cell 32));
      outside = λ i le.
          update_ne (place s c).crt (place s c).cursor i (cell 32) (omega (arith, at))
          ∙ (place_lem s c i).1
          ∙ cells_with-outside s c i lt le;
      stays = λ _. (
        omega (arith, at),
        λ i ne.
            update_ne (place s c).crt (place s c).cursor i (cell 32) (omega (arith, ne, small))
            ∙ (place_lem s c i).1,
      );
      scrolls = λ le. absurd (omega (arith, le, here));
    }

scroll_up-Shows :
    (s : Screen) (c : ℕ)
    → s.cursor < 24 * 80
    → 24 * 80 ≤ goes_to s c
    → Shows s c (under_cursor (scroll_up (place s c)))
scroll_up-Shows s c lt full =
    let at : (place s c).cursor ≡ 24 * 80 =
      omega (arith, (place_lem s c 0).0, goes_to-bound s c lt) in
    let (cursor, up, empty, outside) = scroll_up_lem (place s c) at in
    let out = scroll_up (place s c) in
    let small : out.cursor % 2 ^ 16 ≡ out.cursor = omega (arith, cursor) in
    record {
      on_screen = omega (arith, cursor);
      blank = rw small (update_self out.crt out.cursor (cell 32));
      outside = λ i le.
          update_ne out.crt out.cursor i (cell 32) (omega (arith, cursor))
          ∙ outside i le
          ∙ (place_lem s c i).1
          ∙ cells_with-outside s c i lt le;
      stays = λ l. absurd (omega (arith, l, full));
      scrolls = λ _. (
        omega (arith, cursor),
        λ i l.
            update_ne out.crt out.cursor i (cell 32) (omega (arith, cursor))
            ∙ up i l
            ∙ (place_lem s c (i + 80)).1,
        λ i l l1.
            update_ne out.crt out.cursor i (cell 32) (omega (arith, cursor))
            ∙ empty i (omega arith) l1,
      );
    }

-- From a cursor on the first 24 lines of the screen, a character appears at the cursor, which moves on; a newline takes it
-- to the start of the next line, and a backspace one cell back, if there is one. When it would leave the 24 lines, they
-- move up by one and it stands at the start of the last, which is empty. The cell under the cursor is blank, and no cell
-- beyond the 24 lines is changed.
pub cgaputc_lem : (s : Screen) (c : ℕ) → s.cursor < 24 * 80 → Shows s c (cgaputc s c)
cgaputc_lem s c lt = elim (dec_lt (goes_to s c) (24 * 80)) [
  | yes here ↦ subst (Shows s c) (sym (cgaputc-stays s c here)) (place-Shows s c lt here)
  | no past ↦
      let full : 24 * 80 ≤ goes_to s c = omega arith in
      subst (Shows s c) (sym (cgaputc-scrolls s c full)) (scroll_up-Shows s c lt full)
]
