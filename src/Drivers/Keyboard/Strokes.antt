-- ===== src/Drivers/Keyboard/Strokes.antt =====
-- Keys that are pressed and released at the keyboard of drivers/kbd.c.
use mathlib.Core.Option.{none-ne-some}
use os0_kernel.Prelude.{
  ℕ, ◌+◌, ◌-◌, ◌<◌, ◌≡◌, refl, ◌∙◌, ap, sym, Bool, true, false, not, ◌||◌, Option, none, some, List,
  [], ◌∷◌, arith, ltb, ◌==◌, if◌then◌else◌, get_or, inl, inr, Option-cases,
}
use os0_kernel.Prelude.Below.{all_below, all_below_sound}
use os0_kernel.Drivers.Tty.{Emulator, Tty, Processes, process_input, typed}
use os0_kernel.Drivers.Tty.Lines.{typed-cons, typed-nil, typed-fault}
use os0_kernel.Drivers.Keyboard.{
  Keyboard, keys, scancode_map, lctrl, lshift, rshift, extended, marked, shifted, controlled,
  with_keyboard, sent_key, handle, handled,
}

-- No key for shift or control is down, and no scancode is extended.
pub record Idle (k : Keyboard) : Type 0 where
  pub modifies : k.modifies ≡ false
  pub lctrl : k.press_map lctrl ≡ false
  pub lshift : k.press_map lshift ≡ false
  pub rshift : k.press_map rshift ≡ false

abbrev pub char_of : ℕ → ℕ
char_of code = get_or scancode_map code 0

-- A key that stands for a character
pub record Key (code : ℕ) : Type 0 where
  pub bound : code < keys
  pub sends : (char_of code == 0) ≡ false

abbrev special : ℕ → Bool
special code = code == 0 || (code == lctrl || (code == lshift || (code == rshift || code == 0x60)))

-- The keys without a character
special_test : all_below (λ code. char_of code == 0 || not (special code)) keys ≡ true
unfolding all_below scancode_map
special_test = refl

Key-special : (code : ℕ) → Key code → special code ≡ false
Key-special code w = ground (
  arith,
  w.sends,
  all_below_sound (λ c. char_of c == 0 || not (special c)) keys code special_test w.bound,
)

abbrev pub strokes : List ℕ → List ℕ
strokes [] = []
strokes (code ∷ codes) = code ∷ ((code + 0x80) ∷ strokes codes)

abbrev pub chars_of : List ℕ → List ℕ
chars_of [] = []
chars_of (code ∷ codes) = char_of code ∷ chars_of codes

abbrev pub AllKeys : List ℕ → Type 0
AllKeys [] = Unit
AllKeys (code ∷ codes) = Key code × AllKeys codes

marked-Idle :
    (k : Keyboard) (code : ℕ) (down : Bool) → Idle k → Key code → Idle (marked k code down)
marked-Idle k code down w key = record {
  modifies = w.modifies;
  lctrl = ground (arith, w.lctrl, Key-special code key);
  lshift = ground (arith, w.lshift, Key-special code key);
  rshift = ground (arith, w.rshift, Key-special code key);
}

unshifted : (k : Keyboard) (c : ℕ) → Idle k → controlled k (shifted k c) ≡ c
unfolding controlled shifted
unshifted k c w = rw (w.lshift, w.rshift, w.lctrl) refl

module _ {S : Type 0} (e : Emulator S) (ps : Processes) where
  sent_key-Idle :
      (k : Keyboard) (t t' : Tty S) (code : ℕ)
      → Idle k
      → Key code
      → process_input e ps t (char_of code) ≡ some t'
      → sent_key e ps k t code ≡ some (k, t')
  unfolding sent_key
  sent_key-Idle k t t' code w key eq = rw key.sends (
      ap (λ c. with_keyboard k (process_input e ps t c)) (unshifted k (char_of code) w)
      ∙ ap (with_keyboard k) eq)

  handle-press :
      (k : Keyboard) (t t' : Tty S) (code : ℕ)
      → Idle k
      → Key code
      → process_input e ps t (char_of code) ≡ some t'
      → handle e ps k t code ≡ some (marked k code true, t')
  unfolding handle
  handle-press k t t' code w key eq = ground (
    arith,
    w.modifies,
    key.bound,
    sent_key-Idle (marked k code true) t t' code (marked-Idle k code true w key) key eq,
  )

  handle-release :
      (k : Keyboard) (t : Tty S) (code : ℕ)
      → Idle k
      → Key code
      → handle e ps k t (code + 0x80) ≡ some (marked k code false, t)
  unfolding handle
  handle-release k t code w key =
      ap (λ m. if m then some (record k { modifies = false }, t) else rest) w.modifies
      ∙ rw (not_extended, above, inside)
          (ap (λ c. some (marked k c false, t)) {x = code + 0x80 - 0x80} {y = code} (omega arith))
    where
      rest : Option (Keyboard × Tty S)
      rest =
          if code + 0x80 == extended
          then some (record k { modifies = true }, t)
          else if ltb 0x80 (code + 0x80)
          then (if ltb (code + 0x80 - 0x80) keys
              then some (marked k (code + 0x80 - 0x80) false, t)
              else none)
          else if ltb (code + 0x80) keys
          then sent_key e ps (marked k (code + 0x80) true) t (code + 0x80)
          else none

      not_extended : (code + 0x80 == extended) ≡ false
      not_extended = ground (arith, Key-special code key)

      above : ltb 0x80 (code + 0x80) ≡ true
      above = ground (arith, Key-special code key)

      inside : ltb (code + 0x80 - 0x80) keys ≡ true
      inside = ground (arith, key.bound)

  handled-cons :
      (k k' : Keyboard) (t t' : Tty S) (code : ℕ) (codes : List ℕ)
      → handle e ps k t code ≡ some (k', t')
      → handled e ps k t (code ∷ codes) ≡ handled e ps k' t' codes
  unfolding handled
  handled-cons k k' t t' code codes eq = rw (eq, handled) refl

  handled_end : (k : Keyboard) (t : Tty S) → handled e ps k t [] ≡ some (k, t)
  unfolding handled
  handled_end k t = refl

  -- One key after the other pressed and released, none of them for shift or control: the line
  -- discipline gets the characters of the keys in their order and nothing else, and the keyboard
  -- has no key for shift or control down afterwards.
  pub handled-typed :
      (codes : List ℕ) (k : Keyboard) (t t' : Tty S)
      → Idle k
      → AllKeys codes
      → typed e ps t (chars_of codes) ≡ some t'
      → (k' : Keyboard) × (handled e ps k t (strokes codes) ≡ some (k', t')) × Idle k'
  handled-typed [] k t t' w h eq = (
    k,
    handled_end k t
        ∙ ap
            (λ o. elim o as (λ x. Option (Keyboard × Tty S)) [ none ↦ none | some x ↦ some (k, x) ])
            (sym (typed-nil e ps t) ∙ eq),
    w,
  )
  handled-typed (code ∷ codes) k t t' w (h, hs) eq =
      elim (Option-cases (process_input e ps t (char_of code))) [
        | inl fault ↦
            absurd
              (none-ne-some _ (sym (typed-fault e ps (char_of code) (chars_of codes) t fault) ∙ eq))
        | inr (t₁, eq₁) ↦
            let k₁ : Keyboard = marked k code true in
            let w₁ : Idle k₁ = marked-Idle k code true w h in
            let k₂ : Keyboard = marked k₁ code false in
            let (k₃, eq₃, w₃) =
              handled-typed codes k₂ t₁ t' (marked-Idle k₁ code false w₁ h) hs
                (sym (typed-cons e ps (char_of code) (chars_of codes) t t₁ eq₁) ∙ eq) in
            (
              k₃,
              handled-cons k k₁ t t₁ code ((code + 0x80) ∷ strokes codes)
                    (handle-press k t t₁ code w h eq₁)
                  ∙ handled-cons k₁ k₂ t₁ t₁ (code + 0x80) (strokes codes)
                      (handle-release k₁ t₁ code w₁ h)
                  ∙ eq₃,
              w₃,
            )
      ]
