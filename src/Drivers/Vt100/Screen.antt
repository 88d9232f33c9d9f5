-- ===== src/Drivers/Vt100/Screen.antt =====
-- What the sequences of drivers/vt100.c that set attributes and clear do to the display.
use os0_kernel.Prelude.{
  ℕ, zero, suc, ◌+◌, ◌-◌, ◌≤◌, ◌<◌, refl, ◌∙◌, ap, Bool, ◌&&◌, Option, List, arith, leb, ◌==◌,
  length, get_or, get_elem?-get_or, inl, inr, Bool-cases,
}
use os0_kernel.Prelude.Ends.{Ends, Ends-if}
use os0_kernel.Drivers.Vga.{Display, width, height, blank_from, update_display}
use os0_kernel.Drivers.Vga.Putchar.{IsValid}
use os0_kernel.Drivers.Vga.Blank.{
  KeepsRest, KeepsRest-refl, KeepsRest-trans, KeepsRest-IsValid, blank_from-KeepsRest,
  blank_rows-KeepsRest, update_display-IsValid,
}
use os0_kernel.Drivers.Vt100.{
  sgr, sgr_from, clamped, updated, then_rows, cleared_screen, cleared_line,
}

pub sgr-IsValid : (d : Display) (n : ℕ) → IsValid d → IsValid (sgr d n)
unfolding sgr
sgr-IsValid d n w = elim (Bool-cases (n == 0)) [
  | inl z ↦ rw z same
  | inr nz ↦ elim (Bool-cases (n == 7)) [
    | inl s ↦ rw (nz, s) same
    | inr ns ↦ elim (Bool-cases (leb 30 n && leb n 37)) [
      | inl f ↦ rw (nz, ns, f) same
      | inr nf ↦ elim (Bool-cases (leb 40 n && leb n 47)) [
        | inl b ↦ rw (nz, ns, nf, b) same
        | inr nb ↦ rw (nz, ns, nf, nb) w
      ]
    ]
  ]
]
  where
    same : {r : Bool} {c : ℕ} → IsValid (record d { reverse = r; color = c })
    same = record {
      inside = record { row = w.inside.row; column = w.inside.column; shows = w.inside.shows };
      cursor = w.cursor;
    }

pub sgr_from-IsValid :
    (n : ℕ) (buf : List ℕ) (d : Display) (i : ℕ)
    → i + n ≤ length buf
    → IsValid d
    → Ends IsValid (sgr_from n buf d i)
unfolding sgr_from
sgr_from-IsValid zero buf d i p w = (d, refl, w)
sgr_from-IsValid (suc n) buf d i p w =
    let (d', e, w') =
      sgr_from-IsValid n buf (sgr d (get_or buf i 0)) (i + 1) (omega arith)
        (sgr-IsValid d (get_or buf i 0) w) in
    (d', rw (get_elem?-get_or buf i 0 (omega arith), sgr_from) e, w')

pub clamped_lt : (limit n : ℕ) → 0 < limit → clamped limit n < limit
clamped_lt limit n h = ground arith

then_rows-KeepsRest :
    (n y : ℕ) (d : Display) (o : Option Display)
    → y + n ≤ height
    → Ends (KeepsRest d) o
    → Ends (KeepsRest d) (then_rows n y o)
then_rows-KeepsRest n y d o p (d', e, k) =
    let (d'', e', k') = blank_rows-KeepsRest n d' y p in
    (d'', ap (then_rows n y) e ∙ e', KeepsRest-trans k k')

pub updated-IsValid :
    (d : Display) (o : Option Display) → IsValid d → Ends (KeepsRest d) o → Ends IsValid (updated o)
updated-IsValid d o w (d', e, k) =
    (update_display d', ap updated e, update_display-IsValid d' (KeepsRest-IsValid k w))

module _ (d : Display) (w : IsValid d) where
  row : d.row < height
  row = w.inside.row

  column : d.column < width
  column = w.inside.column

  to_end : Ends (KeepsRest d) (blank_from (width - d.column) d d.column d.row)
  to_end = blank_from-KeepsRest (width - d.column) d d.column d.row (omega (arith, column)) row

  to_cursor : Ends (KeepsRest d) (blank_from d.column d 0 d.row)
  to_cursor = blank_from-KeepsRest d.column d 0 d.row (omega (arith, column)) row

  pub cleared_screen-KeepsRest : (n : ℕ) → Ends (KeepsRest d) (cleared_screen d n)
  unfolding cleared_screen
  cleared_screen-KeepsRest n =
      Ends-if (n == 0) (then_rows-KeepsRest _ _ d _ (omega (arith, row)) to_end) (
        Ends-if (n == 1) (then_rows-KeepsRest _ _ d _ (omega (arith, row)) to_cursor) (
          Ends-if (n == 2) (blank_rows-KeepsRest height d 0 (omega arith))
            (d, refl, KeepsRest-refl d)))

  pub cleared_line-KeepsRest : (n : ℕ) → Ends (KeepsRest d) (cleared_line d n)
  unfolding cleared_line
  cleared_line-KeepsRest n = Ends-if (n == 0) to_end (
      Ends-if (n == 1) to_cursor (
        Ends-if (n == 2) (blank_from-KeepsRest width d 0 d.row (omega arith) row)
          (d, refl, KeepsRest-refl d)))
