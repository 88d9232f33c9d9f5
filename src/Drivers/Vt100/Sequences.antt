-- ===== src/Drivers/Vt100/Sequences.antt =====
-- The numbers of an escape sequence of drivers/vt100.c, as they are read into `t_statebuf`.
use mathlib.Core.List.{append_assoc}
use os0_kernel.Prelude.{
  ℕ, zero, suc, ◌+◌, ◌-◌, ◌*◌, ◌%◌, ◌^◌, ◌≤◌, ◌<◌, ◌≡◌, refl, ◌∙◌, ap, sym, Bool, some, List, [],
  ◌∷◌, ◌++◌, arith, length, length-append, get_elem?-append, set-append, replicate,
}
use os0_kernel.Libk.Numbers.Decimal.{AllDigits, value, spelled, digit_test, wrap_step}
use os0_kernel.Drivers.Vga.{Display}
use os0_kernel.Drivers.Vt100.{
  csi, Terminal, statebuf_items, reset_state, add_digit_char, after_esc, after_csi,
  handle_escaped_char, plain_char, write_char, write_data,
}

-- A terminal in the middle of a sequence, after ESC [
abbrev pub reading : Display → Bool → List ℕ → ℕ → Terminal
reading d a buf i = record {
  display = d;
  state = csi;
  statebuf = buf;
  curritem = i;
  alt_keypad = a;
}

digit-after_csi :
    (t : Terminal) (d : ℕ) → d < 10 → after_csi t (b'0' + d) ≡ add_digit_char t (b'0' + d)
unfolding after_csi
digit-after_csi t d h = rw (digit_test d h) (ground arith)

-- Numbers in decimal digits, with semicolons between them
unfoldable pub joined : List ℕ → List (List ℕ) → List ℕ
joined ds [] = spelled ds
joined ds (e ∷ es) = spelled ds ++ (b';' ∷ joined e es)

abbrev pub AllNumbers : List (List ℕ) → Type 0
AllNumbers [] = Unit
AllNumbers (ds ∷ es) = AllDigits ds × AllNumbers es

-- What `t_statebuf`, whose items are unsigned characters, holds of them
abbrev pub stored : List (List ℕ) → List ℕ
stored [] = []
stored (ds ∷ es) = (value 0 ds % 2 ^ 8) ∷ stored es

-- One byte of the output
pub write_data-cons :
    (t t' : Terminal) (c : ℕ) (s : List ℕ)
    → write_char t c ≡ some t'
    → write_data t (c ∷ s) ≡ write_data t' s
unfolding write_data
write_data-cons t t' c s e = rw (e, write_data) refl

module _ (d : Display) (a : Bool) where
  write_char-digit :
      (c x : ℕ) (seen zs : List ℕ)
      → c < 10
      → write_char (reading d a (seen ++ (x ∷ zs)) (length seen)) (b'0' + c)
        ≡ some (reading d a (seen ++ (((x * 10 + c) % 2 ^ 8) ∷ zs)) (length seen))
  unfolding write_char handle_escaped_char add_digit_char
  write_char-digit c x seen zs h =
      digit-after_csi (reading d a (seen ++ (x ∷ zs)) (length seen)) c h
      ∙ rw (get_elem?-append seen zs x, add_digit_char)
          (ap (λ buf. some (reading d a buf (length seen)))
            (set-append seen zs x ((x * 10 + (b'0' + c - b'0')) % 2 ^ 8)
              ∙ ap (λ n. seen ++ (((x * 10 + n) % 2 ^ 8) ∷ zs)) {x = b'0' + c - b'0'} {y = c}
                  (omega arith)))

  -- The digits of a number, of which those before stand for `acc`
  write_data-spelled :
      (ds seen zs s : List ℕ) (acc : ℕ)
      → AllDigits ds
      → write_data (reading d a (seen ++ ((acc % 2 ^ 8) ∷ zs)) (length seen)) (spelled ds ++ s)
        ≡ write_data (reading d a (seen ++ ((value acc ds % 2 ^ 8) ∷ zs)) (length seen)) s
  unfolding spelled value
  write_data-spelled [] seen zs s acc h = refl
  write_data-spelled (c ∷ ds) seen zs s acc (h, hs) =
      write_data-cons _ _ _ _ (write_char-digit c (acc % 2 ^ 8) seen zs h)
      ∙ ap (λ n. write_data (reading d a (seen ++ (n ∷ zs)) (length seen)) (spelled ds ++ s))
          (wrap_step 8 acc c)
      ∙ write_data-spelled ds seen zs s (acc * 10 + c) hs

  write_char-semicolon :
      (buf : List ℕ) (i : ℕ)
      → i + 1 < statebuf_items
      → write_char (reading d a buf i) b';' ≡ some (reading d a buf (i + 1))
  unfolding write_char handle_escaped_char after_csi
  write_char-semicolon buf i h = ground arith

  next_seen :
      (v i j : ℕ) (seen zs : List ℕ)
      → i ≡ j
      → reading d a (seen ++ (v ∷ zs)) i ≡ reading d a ((seen ++ (v ∷ [])) ++ zs) j
  next_seen v i j seen zs h =
      ap (λ k. reading d a (seen ++ (v ∷ zs)) k) h
      ∙ ap (λ buf. reading d a buf j) (sym (append_assoc seen (v ∷ []) zs))

  -- All the numbers of a sequence
  pub write_data-joined :
      (es : List (List ℕ)) (ds seen s : List ℕ) (n : ℕ)
      → length seen + suc n ≡ statebuf_items
      → length es ≤ n
      → AllDigits ds
      → AllNumbers es
      → write_data (reading d a (seen ++ (0 ∷ replicate n 0)) (length seen)) (joined ds es ++ s)
        ≡ write_data
            (reading d a
              (seen ++ (stored (ds ∷ es) ++ replicate (n - length es) 0))
              (length seen + length es))
            s
  unfolding joined
  write_data-joined [] ds seen s n room fits h hs =
      write_data-spelled ds seen (replicate n 0) s 0 h
      ∙ ap
          (λ m.
            write_data (reading d a (seen ++ ((value 0 ds % 2 ^ 8) ∷ replicate m 0)) (length seen))
              s)
          {x = n} {y = n - 0} (omega arith)
      ∙ ap (λ i. write_data (reading d a (seen ++ (stored (ds ∷ []) ++ replicate (n - 0) 0)) i) s)
          (omega arith)
  write_data-joined (e ∷ es) ds seen s zero room fits h hs = absurd (omega arith)
  write_data-joined (e ∷ es) ds seen s (suc n) room fits h (he, hs) =
      ap (write_data _) (append_assoc (spelled ds) (b';' ∷ joined e es) s)
      ∙ write_data-spelled ds seen (replicate (suc n) 0) (b';' ∷ (joined e es ++ s)) 0 h
      ∙ write_data-cons _ _ _ _ (write_char-semicolon _ (length seen) (omega arith))
      ∙ ap (λ t. write_data t (joined e es ++ s))
          (next_seen v (length seen + 1) (length (seen ++ (v ∷ []))) seen (replicate (suc n) 0)
            (sym one_more))
      ∙ write_data-joined es e (seen ++ (v ∷ [])) s n (omega (arith, one_more)) (omega arith) he hs
      ∙ ap (λ t. write_data t s)
          (sym (
            next_seen v (length seen + suc (length es)) (length (seen ++ (v ∷ [])) + length es) seen
              (stored (e ∷ es) ++ replicate (n - length es) 0) (omega (arith, one_more))))
      ∙ ap
          (λ m.
            write_data
              (reading d a (seen ++ (stored (ds ∷ (e ∷ es)) ++ replicate m 0))
                (length seen + suc (length es)))
              s)
          {x = n - length es} {y = suc n - suc (length es)} (omega arith)
    where
      v : ℕ
      v = value 0 ds % 2 ^ 8

      one_more : length (seen ++ (v ∷ [])) ≡ length seen + 1
      one_more = length-append seen (v ∷ [])

-- ESC [, from the state at rest
pub write_data-csi :
    (t : Terminal) (s : List ℕ)
    → write_data (reset_state t) (27 ∷ (b'[' ∷ s))
      ≡ write_data (reading t.display t.alt_keypad (replicate statebuf_items 0) 0) s
unfolding write_data write_char plain_char handle_escaped_char after_esc
write_data-csi t s = refl
