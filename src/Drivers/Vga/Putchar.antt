-- ===== src/Drivers/Vga/Putchar.antt =====
-- What `vga_display_putchar` of drivers/vga.c does to the screen and to the cursor.
use os0_kernel.Prelude.{
  ℕ, ◌+◌, ◌-◌, ◌*◌, ◌≤◌, ◌<◌, ◌≡◌, refl, ap, true, false, ◌||◌, Option, none, some, arith, ltb,
  bit_or, ◌==◌, if◌then◌else◌, inl, inr, Bool-cases, ==→eq, ltb→lt,
}
use os0_kernel.Prelude.Ends.{Ends, Ends-if}
use os0_kernel.Prelude.Below.{all_below, all_below_sound}
use os0_kernel.Drivers.Vga.{
  Display, width, height, screen_cells, mkentry, shown_color, painted, putentry, setcurs,
  scroll_from, update_display, scrolled, wrap, advance, move, putchar, has_iflag, inlcr, igncr,
  icrnl,
}
use os0_kernel.Drivers.Vga.Cells.{
  Inside, Shows, blank, putentry-painted, painted-Shows, blank_from_lem, scroll_from_lem,
}

-- The hardware shows the cursor where it is.
pub record IsValid (d : Display) : Type 0 where
  pub inside : Inside d
  pub cursor : d.cursor ≡ d.row * width + d.column

-- A cursor on the screen is shown where it is.
pub setcurs-placed :
    (d : Display)
    → d.row < height
    → d.column < width
    → setcurs d ≡ record d { cursor = d.row * width + d.column }
unfolding setcurs
setcurs-placed d p q = ap (λ c. record d { cursor = c }) (omega arith)

pub setcurs-IsValid : (d : Display) → Inside d → IsValid (setcurs d)
unfolding setcurs
setcurs-IsValid d w = record { inside = ground arith; cursor = omega arith }

update_display-Shows : (d : Display) (j : ℕ) → j < screen_cells → Shows (update_display d) j
unfolding update_display
update_display-Shows d j h = λ active. ground (arith, active)

module _ (d : Display) where
  -- The screen with its rows moved up
  abbrev raised : Display
  raised = record d { cells = scroll_from (screen_cells - width) width d.cells }

  -- The next row, where there is one
  wrap-next : d.row + 1 < height → wrap d ≡ some (record d { row = d.row + 1 })
  unfolding wrap
  wrap-next h = ground arith

  -- The last row: all rows move up, and it is blank.
  pub wrap-scroll :
      d.row + 1 ≡ height
      → (d' : Display) × (wrap d ≡ some d')
        × (d'.row ≡ d.row)
        × (d'.column ≡ d.column)
        × ((j : ℕ) → j < screen_cells → Shows d' j)
        × ((j : ℕ)
            → j < screen_cells
            → d'.cells j ≡ (if ltb j (screen_cells - width) then d.cells (j + width) else blank d))
  unfolding wrap update_display shown_color
  wrap-scroll h =
      let (e, eq, r, s, c) =
        blank_from_lem width raised 0 (height - 1) (omega arith) (omega arith) in
      (
        update_display e,
        rw last (ap scrolled eq),
        r.row,
        r.column,
        λ j q. update_display-Shows e j q,
        λ j q. ground (arith, c j, scroll_from_lem (screen_cells - width) width d.cells j),
      )
    where
      last : (d.row + 1 == height) ≡ true
      last = ground arith

-- A display on which a call ends with the cursor on the screen.
abbrev EndsInside : Option Display → Type 0
EndsInside = Ends Inside

-- A move of the cursor alone
pub moved-Inside :
    (d : Display) (r c : ℕ)
    → Inside d
    → r < height
    → c < width
    → Inside (record d { row = r; column = c })
moved-Inside d r c w p q = record { row = p; column = q; shows = w.shows }

pub painted-Inside : (d : Display) (i e : ℕ) → Inside d → Inside (painted d i e)
painted-Inside d i e w = record {
  row = w.row;
  column = w.column;
  shows = λ j h. painted-Shows d i e j (w.shows j h);
}

-- `|= 7` goes to the last column of eight.
tab_stops : all_below (λ c. ltb (bit_or c 7) width) width ≡ true
unfolding all_below
tab_stops = refl

wrap-Inside : (d : Display) → Inside d → EndsInside (wrap d)
wrap-Inside d w = elim (Bool-cases (d.row + 1 == height)) [
  | inl last ↦
      let (d', e, r, c, s, x) = wrap-scroll d (==→eq _ _ last) in
      (d', e, record { row = omega (arith, w.row); column = omega (arith, w.column); shows = s })
  | inr more ↦ (
    record d { row = d.row + 1 },
    wrap-next d (ground (arith, w.row)),
    moved-Inside d (d.row + 1) d.column w (ground (arith, w.row)) w.column,
  )
]

advance-Inside : (d : Display) → Inside d → EndsInside (advance d)
unfolding advance
advance-Inside d w = elim (Bool-cases (d.column + 1 == width)) [
  | inl last ↦ rw last (wrap-Inside _ (moved-Inside d d.row 0 w w.row (omega arith)))
  | inr more ↦ rw more (
    record d { column = d.column + 1 },
    refl,
    moved-Inside d d.row (d.column + 1) w w.row (ground (arith, w.column)),
  )
]

-- The `switch` ends with the cursor on the screen, whatever the character.
move-Inside : (d : Display) (c : ℕ) → Inside d → EndsInside (move d c)
unfolding move
move-Inside d c w = Ends-if (c == 7) stay (
    Ends-if (c == 10) (Ends-if (has_iflag d inlcr) start (wrap-Inside _ home)) (
      Ends-if (c == 11 || c == 12) (wrap-Inside d w) (
        Ends-if (c == 13)
          (Ends-if (has_iflag d igncr) stay
            (Ends-if (has_iflag d icrnl) (wrap-Inside _ home) start))
          (Ends-if (c == 9) (advance-Inside _ tab) printed))))
  where
    home : Inside (record d { column = 0 })
    home = moved-Inside d d.row 0 w w.row (omega arith)

    tab : Inside (record d { column = bit_or d.column 7 })
    tab = moved-Inside d d.row (bit_or d.column 7) w w.row (
        ltb→lt _ _
          (all_below_sound (λ c. ltb (bit_or c 7) width) width d.column tab_stops w.column))

    stay : EndsInside (some d)
    stay = (d, refl, w)

    start : EndsInside (some (record d { column = 0 }))
    start = (_, refl, home)

    printed : EndsInside (elim (putentry d c d.column d.row) as (λ x. Option Display) [
      | none ↦ none
      | some d' ↦ advance d'
    ])
    printed =
        rw (putentry-painted d c d.column d.row w.column w.row)
          (advance-Inside _ (painted-Inside d _ _ w))

-- `vga_display_putchar` never writes outside the screen, keeps the cursor on it, and leaves the
-- hardware with the cells and the cursor of the terminal, whatever the character.
pub putchar-IsValid : (d : Display) (c : ℕ) → IsValid d → Ends IsValid (putchar d c)
unfolding putchar
putchar-IsValid d c w = elim (Bool-cases (c == 0)) [
  | inl z ↦ rw z (d, refl, w)
  | inr nz ↦
      let (d', e, w') = move-Inside d c w.inside in
      rw (nz, e) (setcurs d', refl, setcurs-IsValid d' w')
]

-- A newline in the last row, where the terminal does not ignore it, moves every row of the screen
-- up by one, blanks the last one, and puts the cursor at its start.
pub newline_scrolls :
    (d : Display)
    → d.row ≡ height - 1
    → has_iflag d inlcr ≡ false
    → (d' : Display) × (putchar d 10 ≡ some d')
      × (d'.row ≡ height - 1)
      × (d'.column ≡ 0)
      × ((j : ℕ)
          → j < screen_cells
          → d'.cells j ≡ (if ltb j (screen_cells - width) then d.cells (j + width) else blank d))
unfolding putchar move setcurs shown_color
newline_scrolls d last feeds =
    let (d', e, r, c, s, x) = wrap-scroll (record d { column = 0 }) (omega arith) in
    (setcurs d', rw (feeds, e), omega arith, c, x)

-- A character from the blank on is written at the cursor, and no other cell changes; the cursor
-- goes on by one column where that is not the end of the row.
pub putchar-printable :
    (d : Display) (c : ℕ)
    → IsValid d
    → 32 ≤ c
    → d.column + 1 < width
    → (d' : Display) × (putchar d c ≡ some d')
      × (d'.row ≡ d.row)
      × (d'.column ≡ d.column + 1)
      × ((j : ℕ)
          → d'.cells j
            ≡ (if j == d.row * width + d.column then mkentry c (shown_color d) else d.cells j))
unfolding putchar move advance setcurs
putchar-printable d c w p q = (
  setcurs (record (painted d (d.row * width + d.column) (mkentry c (shown_color d))) {
    column = d.column + 1;
  }),
  ground (arith, putentry-painted d c d.column d.row w.inside.column w.inside.row),
  refl,
  refl,
  λ j. ground arith,
)
