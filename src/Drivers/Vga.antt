-- ===== src/Drivers/Vga.antt =====
-- drivers/vga.c: characters on the text screen. The screen of a terminal and the memory of the
-- hardware are functions from the index of a cell; an index outside the screen is a fault, `none`.
pub mod Cells
pub mod Putchar
pub mod Blank
use os0_kernel.Prelude.{
  ℕ, zero, suc, ◌+◌, ◌-◌, ◌*◌, ◌/◌, ◌%◌, ◌^◌, Bool, ◌||◌, Option, none, some, List, [], ◌∷◌,
  bit_and, bit_or, ltb, leb, ◌==◌, ◌!=◌, if◌then◌else◌,
}

-- The fields of `TTY` that stand for its screen, `vga_hdw_buf`, the position that the hardware
-- shows the cursor at, whether the terminal is CURRENT_TTY, and the `c_iflag` of CURRENT_TTY.
-- `reverse` is the bit TTY_REVERSE_VIDEO of `t_flags`.
pub record Display : Type 0 where
  pub cells : ℕ → ℕ
  pub hardware : ℕ → ℕ
  pub cursor : ℕ
  pub active : Bool
  pub iflag : ℕ
  pub row : ℕ
  pub column : ℕ
  pub color : ℕ
  pub reverse : Bool

abbrev pub width : ℕ
width = 80

abbrev pub height : ℕ
height = 25

-- VGA_SCREEN_WIDTH * VGA_SCREEN_HEIGHT
abbrev pub screen_cells : ℕ
screen_cells = 2000

abbrev pub default_color : ℕ
default_color = 7

-- INLCR, IGNCR and ICRNL of `c_iflag`
abbrev pub has_iflag : Display → ℕ → Bool
has_iflag d m = bit_and d.iflag m != 0

abbrev pub inlcr : ℕ
inlcr = 0x40

abbrev pub igncr : ℕ
igncr = 0x80

abbrev pub icrnl : ℕ
icrnl = 0x100

-- `vga_getindex`, in a `size_t`
abbrev pub getindex : ℕ → ℕ → ℕ
getindex x y = (y * width + x) % 2 ^ 32

-- `vga_mkentry` of a `char`, which is signed, and a color.
pub mkentry : ℕ → ℕ → ℕ
mkentry c color = bit_or (if ltb c 128 then c else c + 0xff00) (color * 256)

-- `vga_setfg` and `vga_setbg`
abbrev pub setfg : ℕ → ℕ → ℕ
setfg color fg = bit_or (bit_and color 0xf0) fg

abbrev pub setbg : ℕ → ℕ → ℕ
setbg color bg = bit_or (bit_and color 0x0f) (bg * 16)

-- The color that `vga_putentry` uses.
pub shown_color : Display → ℕ
shown_color d =
    if d.reverse then bit_or (bit_and d.color 0xf0 / 16) (bit_and d.color 0x0f * 16) else d.color

abbrev pub update : (ℕ → ℕ) → ℕ → ℕ → ℕ → ℕ
update f i v j = if j == i then v else f j

-- The display with one cell written.
abbrev pub painted : Display → ℕ → ℕ → Display
painted d i entry = record d {
  cells = update d.cells i entry;
  hardware = if d.active then update d.hardware i entry else d.hardware;
}

-- `vga_putentry`
pub putentry : Display → ℕ → ℕ → ℕ → Option Display
putentry d c x y =
    if ltb (getindex x y) screen_cells
    then some (painted d (getindex x y) (mkentry c (shown_color d)))
    else none

-- `vga_setcurs`: the position goes to the hardware in two bytes.
pub setcurs : Display → Display
setcurs d = record d { cursor = getindex d.column d.row % 2 ^ 16 }

-- The loops that write `n` blanks from column `x` on in the row `y`, and blank `n` rows from `y`
-- on.
pub blank_from : ℕ → Display → ℕ → ℕ → Option Display
blank_from zero d x y = some d
blank_from (suc n) d x y = elim (putentry d b' ' x y) [
  | none ↦ none
  | some d' ↦ blank_from n d' (x + 1) y
]

pub blank_rows : ℕ → Display → ℕ → Option Display
blank_rows zero d y = some d
blank_rows (suc n) d y = elim (blank_from width d 0 y) [
  | none ↦ none
  | some d' ↦ blank_rows n d' (y + 1)
]

-- `memcpy` of the screen to the hardware
abbrev pub shown : Display → ℕ → ℕ
shown d j = if ltb j screen_cells then d.cells j else d.hardware j

-- `vga_update_display`
pub update_display : Display → Display
update_display d = record d { hardware = if d.active then shown d else d.hardware }

-- The loop that moves the cells up by a row, with `n` rounds left from the index `i` on.
pub scroll_from : ℕ → ℕ → (ℕ → ℕ) → ℕ → ℕ
scroll_from zero i cells = cells
scroll_from (suc n) i cells = scroll_from n (i + 1) (update cells (i - width) (cells i))

-- What follows the blanks of the last row when the screen is scrolled.
abbrev pub scrolled : Option Display → Option Display
scrolled none = none
scrolled (some d) = some (update_display d)

-- From the label `wrap` on: the next row, for which the screen is scrolled where there is none.
pub wrap : Display → Option Display
wrap d =
    if d.row + 1 == height
    then scrolled (
        blank_from width (record d { cells = scroll_from (screen_cells - width) width d.cells }) 0
          (height - 1))
    else some (record d { row = d.row + 1 })

-- The column after the one written.
pub advance : Display → Option Display
advance d =
    if d.column + 1 == width
    then wrap (record d { column = 0 })
    else some (record d { column = d.column + 1 })

-- The `switch` of `vga_display_putchar`.
pub move : Display → ℕ → Option Display
move d c =
    if c == 7
    then some d
    else if c == 10
    then (let d' = record d { column = 0 } in if has_iflag d inlcr then some d' else wrap d')
    else if c == 11 || c == 12
    then wrap d
    else if c == 13
    then (let d' = record d { column = 0 } in
        if has_iflag d igncr then some d else if has_iflag d icrnl then wrap d' else some d')
    else if c == 9
    then advance (record d { column = bit_or d.column 7 })
    else elim (putentry d c d.column d.row) [ none ↦ none | some d' ↦ advance d' ]

abbrev pub with_cursor : Option Display → Option Display
with_cursor none = none
with_cursor (some d) = some (setcurs d)

-- `vga_display_putchar`, which `vga_putchar` calls
pub putchar : Display → ℕ → Option Display
putchar d c = if c == 0 then some d else with_cursor (move d c)

-- `vga_write` and, for the bytes before a terminator, `vga_puts`
pub write : Display → List ℕ → Option Display
write d [] = some d
write d (c ∷ s) = elim (putchar d c) [ none ↦ none | some d' ↦ write d' s ]

-- `vga_erase_char`
pub erase_char : Display → Option Display
erase_char d =
    if d.column == 0
    then some d
    else with_cursor (putentry (record d { column = d.column - 1 }) b' ' (d.column - 1) d.row)

-- The loop of `vga_erase_line`
pub erase_back : ℕ → Display → Option Display
erase_back zero d = some d
erase_back (suc n) d =
    elim (putentry (record d { column = d.column - 1 }) b' ' (d.column - 1) d.row) [
      | none ↦ none
      | some d' ↦ erase_back n d'
    ]

-- `vga_erase_line`
pub erase_line : Display → ℕ → Option Display
erase_line d len = with_cursor (erase_back (if ltb d.column len then d.column else len) d)

-- `vga_init`, of `default_tty`, whose writes are to indices on the screen
pub init : Display → Display
init d =
    let d' : Display = record d {
      cells = λ j. if ltb j screen_cells then mkentry b' ' d.color else d.cells j;
    } in
    record d' { hardware = shown d' }

-- `vga_clear`, whose writes are to indices on the screen
pub clear : Display → Display
clear d =
    update_display
      (record d { cells = λ j. if ltb j screen_cells then mkentry b' ' d.color else d.cells j })
