-- ===== src/Drivers/Vga/Blank.antt =====
-- Blanks and the erasure of characters in drivers/vga.c: they stay on the screen.
use os0_kernel.Prelude.{ℕ, zero, suc, ◌+◌, ◌-◌, ◌*◌, ◌≤◌, ◌<◌, refl, ap, Option, arith, ◌==◌}
use os0_kernel.Prelude.Ends.{Ends, Ends-if}
use os0_kernel.Drivers.Vga.{
  Display, width, height, painted, putentry, setcurs, blank_from, blank_rows, update_display,
  with_cursor, erase_char, erase_back, erase_line,
}
use os0_kernel.Drivers.Vga.Cells.{
  Inside, Shows, Repainted, Repainted-trans, putentry-painted, blank_from_lem,
}
use os0_kernel.Drivers.Vga.Putchar.{IsValid, setcurs-IsValid, painted-Inside, moved-Inside}

-- `d'` is `d` with other cells, which the hardware shows where it showed those of `d`.
pub record KeepsRest (d d' : Display) : Type 0 where
  pub repainted : Repainted d d'
  pub shows : (j : ℕ) → Shows d j → Shows d' j

pub KeepsRest-refl : (d : Display) → KeepsRest d d
KeepsRest-refl d = record { repainted = ground arith; shows = λ j h. h }

pub KeepsRest-trans : {d d' d'' : Display} → KeepsRest d d' → KeepsRest d' d'' → KeepsRest d d''
KeepsRest-trans p q = record {
  repainted = Repainted-trans p.repainted q.repainted;
  shows = λ j h. q.shows j (p.shows j h);
}

pub KeepsRest-Inside : {d d' : Display} → KeepsRest d d' → Inside d → Inside d'
KeepsRest-Inside p w = record {
  row = omega (arith, p.repainted.row, w.row);
  column = omega (arith, p.repainted.column, w.column);
  shows = λ j h. p.shows j (w.shows j h);
}

pub KeepsRest-IsValid : {d d' : Display} → KeepsRest d d' → IsValid d → IsValid d'
KeepsRest-IsValid p w = record {
  inside = KeepsRest-Inside p w.inside;
  cursor = omega (arith, p.repainted.row, p.repainted.column, p.repainted.cursor, w.cursor);
}

pub blank_from-KeepsRest :
    (n : ℕ) (d : Display) (x y : ℕ)
    → x + n ≤ width
    → y < height
    → Ends (KeepsRest d) (blank_from n d x y)
blank_from-KeepsRest n d x y p q =
    let (d', e, r, s, c) = blank_from_lem n d x y p q in
    (d', e, record { repainted = r; shows = s })

pub blank_rows-KeepsRest :
    (n : ℕ) (d : Display) (y : ℕ) → y + n ≤ height → Ends (KeepsRest d) (blank_rows n d y)
unfolding blank_rows
blank_rows-KeepsRest zero d y p = (d, refl, KeepsRest-refl d)
blank_rows-KeepsRest (suc n) d y p =
    let (d', e, k) = blank_from-KeepsRest width d 0 y (omega arith) (omega arith) in
    let (d'', e', k') = blank_rows-KeepsRest n d' (y + 1) (omega arith) in
    (d'', rw (e, blank_rows) e', KeepsRest-trans k k')

pub update_display-IsValid : (d : Display) → IsValid d → IsValid (update_display d)
unfolding update_display
update_display-IsValid d w = record {
  inside = record {
    row = w.inside.row;
    column = w.inside.column;
    shows = λ j h active. ground (arith, active);
  };
  cursor = w.cursor;
}

-- A blank at a place before the cursor
before-Inside :
    (d : Display) (c : ℕ)
    → Inside d
    → Ends Inside (putentry (record d { column = d.column - 1 }) c (d.column - 1) d.row)
before-Inside d c w =
    let home = moved-Inside d d.row (d.column - 1) w w.row (omega (arith, w.column)) in
    (
      painted (record d { column = d.column - 1 }) (d.row * width + (d.column - 1)) _,
      putentry-painted (record d { column = d.column - 1 }) c (d.column - 1) d.row home.column
          w.row,
      painted-Inside _ _ _ home,
    )

with_cursor-IsValid : (o : Option Display) → Ends Inside o → Ends IsValid (with_cursor o)
with_cursor-IsValid o (d, e, w) = (setcurs d, ap with_cursor e, setcurs-IsValid d w)

pub erase_char-IsValid : (d : Display) → IsValid d → Ends IsValid (erase_char d)
unfolding erase_char
erase_char-IsValid d w =
    Ends-if (d.column == 0) (d, refl, w) (with_cursor-IsValid _ (before-Inside d b' ' w.inside))

erase_back-Inside : (n : ℕ) (d : Display) → Inside d → Ends Inside (erase_back n d)
unfolding erase_back
erase_back-Inside zero d w = (d, refl, w)
erase_back-Inside (suc n) d w =
    let (d', e, w') = before-Inside d b' ' w in
    let (d'', e', w'') = erase_back-Inside n d' w' in (d'', rw (e, erase_back) e', w'')

pub erase_line-IsValid : (d : Display) (len : ℕ) → IsValid d → Ends IsValid (erase_line d len)
unfolding erase_line
erase_line-IsValid d len w = with_cursor-IsValid _ (erase_back-Inside _ d w.inside)
