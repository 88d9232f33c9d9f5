-- ===== src/Drivers/Input/Words.antt =====
-- `tty_erase_input_word` of drivers/tty-line.c.
use os0_kernel.Prelude.{
  ℕ, zero, suc, ◌+◌, ◌-◌, ◌≤◌, ◌<◌, ◌≡◌, refl, ◌∙◌, ap, sym, subst, Bool, true, false, none, some,
  arith, ltb, leb, ◌==◌, if◌then◌else◌, ◌⊎◌, inl, inr, Bool-cases, ==→eq,
}
use os0_kernel.Libk.Ctype.{isspace}
use os0_kernel.Libk.Numbers.{to_char}
use os0_kernel.Drivers.Input.{
  Termios, Input, buffer_size, in_word, goes_on, word_loop, erase_input_word,
}
use os0_kernel.Drivers.Input.Contents.{IsValid, sub32-sub}
use os0_kernel.Drivers.Input.Editing.{Erased, shortened-Erased}

-- A loop of `tty_erase_input_word` stops at the first character from the end that is not of its
-- kind, that is the end-of-file character, or that has been read.
word_loop-stops :
    (tm : Termios) (b : Input) (space : Bool) (i k : ℕ)
    → k < i
    → i ≤ buffer_size
    → (k < b.tb_start) ⊎ (goes_on tm space (b.tb_data k) ≡ false)
    → ((j : ℕ) → k < j → j < i → (b.tb_start ≤ j) × (goes_on tm space (b.tb_data j) ≡ true))
    → word_loop tm b space i ≡ some (suc k)
unfolding word_loop
word_loop-stops tm b space zero k p q s h = absurd (omega arith)
word_loop-stops tm b space (suc i) k p q s h = elim (Bool-cases (i == k)) [
  | inl same ↦
      let e : i ≡ k = ==→eq i k same in
      subst
        (λ n.
          (if ltb n b.tb_start
            then some (suc n)
            else if leb buffer_size n
            then none
            else if goes_on tm space (b.tb_data n)
            then word_loop tm b space i
            else some (suc n))
          ≡ some (suc k))
        (sym e) (elim s [ inl read ↦ ground arith | inr stop ↦ rw stop (ground arith) ])
  | inr above ↦
      let (r, g) = h i (ground arith) (omega arith) in
      rw g (
        ground (
          arith,
          r,
          word_loop-stops tm b space i k (ground arith) (omega arith) s
              (λ j a z. h j a (omega arith)),
        ))
]

-- The input from the index `k + 1` on is a word that ends before the index `m`, and spaces behind
-- it.
pub record WordAt (tm : Termios) (b : Input) (k m : ℕ) : Type 0 where
  pub longer : k + 1 < m
  pub within : m ≤ b.tb_end
  pub word : (j : ℕ) → k < j → j < m → goes_on tm false (b.tb_data j) ≡ true
  pub spaces : (j : ℕ) → m ≤ j → j < b.tb_end → goes_on tm true (b.tb_data j) ≡ true

-- A character of a word is no space.
word-stops : (tm : Termios) (c : ℕ) → goes_on tm false c ≡ true → goes_on tm true c ≡ false
unfolding in_word
word-stops tm c h = elim (Bool-cases (isspace (to_char c))) [
  | inl space ↦ ground (arith, h, space)
  | inr visible ↦ rw visible refl
]

-- The first loop ends behind the last word.
spaces-stop :
    (tm : Termios) (b : Input) (m : ℕ)
    → 0 < m
    → m ≤ b.tb_end
    → b.tb_start ≤ m
    → b.tb_end ≤ buffer_size
    → goes_on tm false (b.tb_data (m - 1)) ≡ true
    → ((j : ℕ) → m ≤ j → j < b.tb_end → goes_on tm true (b.tb_data j) ≡ true)
    → word_loop tm b true b.tb_end ≡ some m
spaces-stop tm b m pos p q r g s =
    word_loop-stops tm b true b.tb_end (m - 1) (omega arith) r (inr (word-stops tm _ g))
      (λ j x y. (omega arith, s j (omega arith) y))
    ∙ ap some (omega arith)

word_loop-below :
    (tm : Termios) (b : Input) (space : Bool) (i : ℕ)
    → b.tb_start ≡ 0
    → ((j : ℕ) → j < i → goes_on tm space (b.tb_data j) ≡ true)
    → word_loop tm b space i ≡ none
unfolding word_loop
word_loop-below tm b space zero z h = refl
word_loop-below tm b space (suc i) z h =
    rw (h i (omega arith))
      (ground (arith, z, word_loop-below tm b space i z (λ j p. h j (omega arith))))

-- `tty_erase_input_word` erases the last word of the unread characters with the spaces behind it,
-- and says how many characters that are, where something comes before the word: a space, an
-- end-of-file character, or characters that have been read.
pub erase_input_word-Erased :
    (tm : Termios) (b : Input) (k m : ℕ)
    → IsValid b
    → WordAt tm b k m
    → b.tb_start ≤ k + 1
    → (k < b.tb_start) ⊎ (goes_on tm false (b.tb_data k) ≡ false)
    → (erase_input_word tm b ≡ some (record b { tb_end = k + 1 }, b.tb_end - (k + 1)))
      × Erased b (record b { tb_end = k + 1 }) (b.tb_end - (k + 1))
unfolding erase_input_word
erase_input_word-Erased tm b k m w t p s = (
  rw (first, erase_input_word)
      (rw (second, erase_input_word)
        (ap (λ n. some (record b { tb_end = k + 1 }, n))
          (sub32-sub b.tb_end (k + 1) (omega (arith, t.longer, t.within))
            (omega (arith, w.fits))))),
  shortened-Erased b (k + 1) (b.tb_end - (k + 1)) w p (omega (arith, t.longer, t.within)),
)
  where
    first : word_loop tm b true b.tb_end ≡ some m
    first =
        spaces-stop tm b m (omega (arith, t.longer)) t.within (omega (arith, p, t.longer)) w.fits
          (t.word (m - 1) (omega (arith, t.longer)) (omega (arith, t.longer))) t.spaces

    second : word_loop tm b false m ≡ some (k + 1)
    second =
        word_loop-stops tm b false m k (omega (arith, t.longer)) (omega (arith, t.within, w.fits)) s
          (λ j x y. (omega (arith, p), t.word j x y))
        ∙ ap some (omega arith)

-- The loops of `tty_erase_input_word` go on to the index -1 where nothing at the front of the buffer
-- has been read and all the input is one word, with the spaces behind it, or empty: they read before
-- the buffer.
pub erase_input_word-first :
    (tm : Termios) (b : Input) (m : ℕ)
    → b.tb_start ≡ 0
    → m ≤ b.tb_end
    → b.tb_end ≤ buffer_size
    → ((j : ℕ) → j < m → goes_on tm false (b.tb_data j) ≡ true)
    → ((j : ℕ) → m ≤ j → j < b.tb_end → goes_on tm true (b.tb_data j) ≡ true)
    → erase_input_word tm b ≡ none
unfolding erase_input_word
erase_input_word-first tm b zero z p q h s =
    rw (word_loop-below tm b true b.tb_end z (λ j x. s j (omega arith) x), erase_input_word) refl
erase_input_word-first tm b (suc n) z p q h s =
    rw (first, erase_input_word)
      (rw (word_loop-below tm b false (suc n) z h, erase_input_word) refl)
  where
    first : word_loop tm b true b.tb_end ≡ some (suc n)
    first = spaces-stop tm b (suc n) (omega arith) p (omega arith) q (h (suc n - 1) (omega arith)) s
