-- ===== src/Libk/Spell/Decimals.antt =====
-- Numbers that are written in base 10 and read back: libk/itoa.c with libk/atoi.c.
use native.Mathlib.Nat.{pow-suc}
use os0_kernel.Prelude.{
  ℕ, zero, suc, ◌+◌, ◌*◌, ◌/◌, ◌%◌, ◌^◌, ◌≤◌, ◌<◌, ◌≡◌, ◌⊎◌, refl, ◌∙◌, ap, sym, true, false, none,
  some, List, [], ◌∷◌, ◌++◌, inl, inr, arith, ◌==◌, if◌then◌else◌, length, Bool-cases,
  length-append,
}
use os0_kernel.Libk.Ctype.{isdigit}
use os0_kernel.Libk.Numbers.{atoi}
use os0_kernel.Libk.Numbers.Decimal.{AllDigits, spelled, value, atoi-spelled}
use os0_kernel.Libk.Strings.Copies.{terminated}
use os0_kernel.Libk.Spell.{lower_digits, digit, digits_of, unsnoc, swap_ends, utoa, utoa_with}

-- The list backwards.
pub backward : List ℕ → List ℕ
backward [] = []
backward (x ∷ s) = backward s ++ (x ∷ [])

pub backward-snoc : (s : List ℕ) (y : ℕ) → backward (s ++ (y ∷ [])) ≡ y ∷ backward s
unfolding backward
backward-snoc [] y = refl
backward-snoc (x ∷ s) y = rw (backward-snoc s y)

-- A list is empty, or has a last byte.
unsnoc_cases :
    (s : List ℕ)
    → ((s ≡ []) × (unsnoc s ≡ none))
      ⊎ ((m : List ℕ) × (y : ℕ) × (s ≡ m ++ (y ∷ [])) × (unsnoc s ≡ some (m, y)))
unfolding unsnoc
unsnoc_cases [] = inl (refl, refl)
unsnoc_cases (x ∷ s) = elim (unsnoc_cases s) [
  | inl (e, u) ↦ inr ([], x, ap (λ t. x ∷ t) e, rw (u, unsnoc) refl)
  | inr (m, y, e, u) ↦ inr (x ∷ m, y, ap (λ t. x ∷ t) e, rw (u, unsnoc) refl)
]

-- The swaps turn the text round.
pub swap_ends-backward :
    (rounds : ℕ) (s : List ℕ) → length s ≤ rounds → swap_ends rounds s ≡ backward s
unfolding swap_ends backward
swap_ends-backward zero [] h = refl
swap_ends-backward zero (x ∷ s) h = absurd (omega arith)
swap_ends-backward (suc rounds) [] h = refl
swap_ends-backward (suc rounds) (x ∷ s) h = elim (unsnoc_cases s) [
  | inl (e, u) ↦ rw (u, swap_ends) (ap (λ t. backward t ++ (x ∷ [])) (sym e))
  | inr (m, y, e, u) ↦
      rw (u, swap_ends)
        (ap (λ t. y ∷ (t ++ (x ∷ [])))
            (swap_ends-backward rounds m (omega (arith, ap length e, length-append m (y ∷ []))))
          ∙ ap (λ t. t ++ (x ∷ [])) (sym (ap backward e ∙ backward-snoc m y)))
]

value-snoc : (ds : List ℕ) (d acc : ℕ) → value acc (ds ++ (d ∷ [])) ≡ value acc ds * 10 + d
unfolding value
value-snoc [] d acc = refl
value-snoc (c ∷ ds) d acc = value-snoc ds d (acc * 10 + c)

spelled-snoc : (ds : List ℕ) (d : ℕ) → spelled (ds ++ (d ∷ [])) ≡ spelled ds ++ ((b'0' + d) ∷ [])
unfolding spelled
spelled-snoc [] d = refl
spelled-snoc (c ∷ ds) d = ap (λ t. (b'0' + c) ∷ t) (spelled-snoc ds d)

AllDigits-snoc : (ds : List ℕ) (d : ℕ) → AllDigits ds → d < 10 → AllDigits (ds ++ (d ∷ []))
AllDigits-snoc [] d h lt = (lt, tt)
AllDigits-snoc (c ∷ ds) d (k, h) lt = (k, AllDigits-snoc ds d h lt)

decimal_digit : (r : ℕ) → r < 10 → digit lower_digits false r ≡ b'0' + r
unfolding digit lower_digits
decimal_digit zero h = refl
decimal_digit (suc zero) h = refl
decimal_digit (suc (suc zero)) h = refl
decimal_digit (suc (suc (suc zero))) h = refl
decimal_digit (suc (suc (suc (suc zero)))) h = refl
decimal_digit (suc (suc (suc (suc (suc zero))))) h = refl
decimal_digit (suc (suc (suc (suc (suc (suc zero)))))) h = refl
decimal_digit (suc (suc (suc (suc (suc (suc (suc zero))))))) h = refl
decimal_digit (suc (suc (suc (suc (suc (suc (suc (suc zero)))))))) h = refl
decimal_digit (suc (suc (suc (suc (suc (suc (suc (suc (suc zero))))))))) h = refl
decimal_digit (suc (suc (suc (suc (suc (suc (suc (suc (suc (suc r)))))))))) h = absurd (omega arith)

-- The digits of a number, the highest one first: a first digit and more.
record Spelling (text : List ℕ) (m : ℕ) : Type 0 where
  first : ℕ
  more : List ℕ
  spells : backward text ≡ spelled (first ∷ more)
  digits : AllDigits (first ∷ more)
  number : value 0 (first ∷ more) ≡ m

Spelling-one : (m : ℕ) → m < 10 → Spelling (digit lower_digits false (m % 10) ∷ []) m
unfolding backward spelled value
Spelling-one m h = record {
  first = m % 10;
  more = [];
  spells = ap (λ c. c ∷ []) (decimal_digit (m % 10) (omega arith));
  digits = (omega arith, tt);
  number = omega arith;
}

Spelling-more :
    (text : List ℕ) (m : ℕ)
    → Spelling text (m / 10)
    → Spelling (digit lower_digits false (m % 10) ∷ text) m
unfolding backward
Spelling-more text m w = record {
  first = w.first;
  more = w.more ++ (m % 10 ∷ []);
  spells =
      ap (λ t. t ++ (digit lower_digits false (m % 10) ∷ [])) w.spells
      ∙ ap (λ c. spelled (w.first ∷ w.more) ++ (c ∷ [])) (decimal_digit (m % 10) (omega arith))
      ∙ sym (spelled-snoc (w.first ∷ w.more) (m % 10));
  digits = AllDigits-snoc (w.first ∷ w.more) (m % 10) w.digits (omega arith);
  number = omega (arith, value-snoc (w.first ∷ w.more) (m % 10) 0, w.number);
}

digits_of-Spelling :
    (rounds m : ℕ) → m < 2 ^ rounds → Spelling (digits_of (suc rounds) lower_digits false 10 m) m
unfolding digits_of
digits_of-Spelling zero m h = rw (small, if◌then◌else◌) (Spelling-one m (omega arith))
  where
    small : (m / 10 == 0) ≡ true
    small = ground arith
digits_of-Spelling (suc rounds) m h = elim (Bool-cases (m / 10 == 0)) [
  | inl e ↦ rw e (Spelling-one m (ground arith))
  | inr e ↦
      rw e
        (Spelling-more _ m (digits_of-Spelling rounds (m / 10) (omega (arith, pow-suc 2 rounds))))
]

-- `utoa` of any word in base 10 is text that `atoi` reads back as that word.
pub atoi-utoa : (v : ℕ) (rest : List ℕ) → v < 2 ^ 32 → atoi (terminated (utoa v 10) rest) ≡ some v
unfolding utoa utoa_with isdigit
atoi-utoa v rest h =
    let w = digits_of-Spelling 32 v h in
    let text =
      swap_ends-backward _ (digits_of 33 lower_digits false 10 v) (omega arith) ∙ w.spells in
    ap (λ t. atoi (t ++ (0 ∷ rest))) text
    ∙ (atoi-spelled [] w.first w.more 0 rest tt w.digits refl).0
    ∙ ap some (omega (arith, w.number))
