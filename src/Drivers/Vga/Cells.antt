-- ===== src/Drivers/Vga/Cells.antt =====
-- What the loops of drivers/vga.c do to the cells of the screen.
use os0_kernel.Prelude.{
  ℕ, zero, suc, ◌+◌, ◌-◌, ◌*◌, ◌%◌, ◌^◌, ◌≤◌, ◌<◌, ◌≡◌, refl, true, ◌&&◌, some, arith, ltb, leb,
  if◌then◌else◌,
}
use os0_kernel.Drivers.Vga.{
  Display, width, height, screen_cells, mkentry, shown_color, painted, putentry, blank_from,
  scroll_from, update,
}

-- The display `d'` is `d` with other cells.
pub record Repainted (d d' : Display) : Type 0 where
  pub row : d'.row ≡ d.row
  pub column : d'.column ≡ d.column
  pub cursor : d'.cursor ≡ d.cursor
  pub active : d'.active ≡ d.active
  pub iflag : d'.iflag ≡ d.iflag
  pub color : d'.color ≡ d.color
  pub reverse : d'.reverse ≡ d.reverse

-- The hardware shows the cell `j` of the active terminal.
abbrev pub Shows : Display → ℕ → Type 0
Shows d j = d.active ≡ true → d.hardware j ≡ d.cells j

-- The cursor is on the screen, and the hardware shows all its cells.
pub record Inside (d : Display) : Type 0 where
  pub row : d.row < height
  pub column : d.column < width
  pub shows : (j : ℕ) → j < screen_cells → Shows d j

abbrev pub blank : Display → ℕ
blank d = mkentry b' ' (shown_color d)

pub putentry-painted :
    (d : Display) (c x y : ℕ)
    → x < width
    → y < height
    → putentry d c x y ≡ some (painted d (y * width + x) (mkentry c (shown_color d)))
unfolding putentry
putentry-painted d c x y p q = rw (small, inside) refl
  where
    small : (y * width + x) % 2 ^ 32 ≡ y * width + x
    small = omega arith

    inside : ltb (y * width + x) screen_cells ≡ true
    inside = ground arith

pub painted-Repainted : (d : Display) (i e : ℕ) → Repainted d (painted d i e)
painted-Repainted d i e = ground arith

pub painted-Shows : (d : Display) (i e j : ℕ) → Shows d j → Shows (painted d i e) j
painted-Shows d i e j h = λ active. ground (arith, h active)

pub Repainted-trans : {d d' d'' : Display} → Repainted d d' → Repainted d' d'' → Repainted d d''
Repainted-trans p q = ground arith

same_blank : (d : Display) (i e : ℕ) → blank (painted d i e) ≡ blank d
unfolding shown_color
same_blank d i e = refl

-- `n` blanks from a column on
pub blank_from_lem :
    (n : ℕ) (d : Display) (x y : ℕ)
    → x + n ≤ width
    → y < height
    → (d' : Display) × (blank_from n d x y ≡ some d')
      × Repainted d d'
      × ((j : ℕ) → Shows d j → Shows d' j)
      × ((j : ℕ)
          → d'.cells j
            ≡ (if leb (y * width + x) j && ltb j (y * width + x + n) then blank d else d.cells j))
unfolding blank_from
blank_from_lem zero d x y p q = (d, refl, ground arith, λ j h. h, λ j. ground arith)
blank_from_lem (suc n) d x y p q =
    let first = painted d (y * width + x) (blank d) in
    let (d', e, r, s, c) = blank_from_lem n first (x + 1) y (omega arith) q in
    (
      d',
      rw (putentry-painted d b' ' x y (omega arith) q, blank_from) e,
      Repainted-trans (painted-Repainted d _ _) r,
      λ j h. s j (painted-Shows d _ _ j h),
      λ j. ground (arith, c j, same_blank d (y * width + x) (blank d)),
    )

-- The cells move up by a row.
pub scroll_from_lem :
    (n i : ℕ) (cells : ℕ → ℕ) (j : ℕ)
    → width ≤ i
    → scroll_from n i cells j
      ≡ (if leb i (j + width) && ltb (j + width) (i + n) then cells (j + width) else cells j)
unfolding scroll_from
scroll_from_lem zero i cells j p = ground arith
scroll_from_lem (suc n) i cells j p =
    ground (arith, scroll_from_lem n (i + 1) (update cells (i - width) (cells i)) j)
