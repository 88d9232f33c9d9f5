-- ===== src/Drivers/Input/Editing.antt =====
-- The editing of the input buffer in drivers/tty-line.c: a character, a word, or all of the input
-- is erased.
use os0_kernel.Prelude.{
  ℕ, zero, suc, ◌+◌, ◌-◌, ◌^◌, ◌≤◌, ◌<◌, ◌≡◌, ◌≢◌, refl, ◌∙◌, ap, sym, subst, true, false, none,
  some, ◌++◌, arith, ltb, leb, ◌==◌, if◌then◌else◌, ◌⊎◌, inl, inr, Bool-cases, ==→eq,
}
use os0_kernel.Drivers.Input.{
  Termios, Input, buffer_size, sub32, veof, is_eof, erase_input, last_index, all_killed, killed,
  kill_input, slice, read_ready,
}
use os0_kernel.Drivers.Input.Contents.{
  IsValid, Appended, contents, slice-split, slice-cong, sub32-sub,
}

-- The buffer `b'` is `b` without the last `n` of its unread characters.
pub record Erased (b b' : Input) (n : ℕ) : Type 0 where
  pub characters : contents b' ++ slice b.tb_data n (b.tb_end - n) ≡ contents b
  pub valid : IsValid b'

-- The end moved back
pub shortened-Erased :
    (b : Input) (i n : ℕ)
    → IsValid b
    → b.tb_start ≤ i
    → i + n ≡ b.tb_end
    → Erased b (record b { tb_end = i }) n
shortened-Erased b i n w p q = record {
  characters =
      ap (λ k. slice b.tb_data (i - b.tb_start) b.tb_start ++ slice b.tb_data n k)
        {x = b.tb_end - n} {y = b.tb_start + (i - b.tb_start)} (omega arith)
      ∙ sym (slice-split b.tb_data (i - b.tb_start) n b.tb_start)
      ∙ ap (λ k. slice b.tb_data k b.tb_start) (omega arith);
  valid = record { order = p; fits = omega (arith, w.fits) };
}

-- `tty_erase_input` erases the last unread character, unless that is the end-of-file character.
pub erase_input-Erased :
    (tm : Termios) (b : Input)
    → IsValid b
    → b.tb_start < b.tb_end
    → (b' : Input) × (n : ℕ) × (erase_input tm b ≡ some (b', n))
      × Erased b b' n
      × (n ≡ (if is_eof tm (b.tb_data (b.tb_end - 1)) then 0 else 1))
unfolding erase_input
erase_input-Erased tm b w h = elim (Bool-cases (is_eof tm (b.tb_data (b.tb_end - 1)))) [
  | inl e ↦ (
    b,
    0,
    rw (nonempty, inside, e) refl,
    shortened-Erased b b.tb_end 0 w w.order (omega arith),
    rw e refl,
  )
  | inr ne ↦ (
    record b { tb_end = b.tb_end - 1 },
    1,
    rw (nonempty, inside, ne) refl,
    shortened-Erased b (b.tb_end - 1) 1 w (omega arith) (omega arith),
    rw ne refl,
  )
]
  where
    nonempty : (b.tb_end == 0) ≡ false
    nonempty = ground arith

    inside : leb b.tb_end buffer_size ≡ true
    inside = ground (arith, w.fits)

-- What has been read can be erased: where a part was read and the rest of the unread characters
-- erased, and the last character that was read is not the end-of-file character, one more erasure
-- puts the end of the unread characters before their start, and `tty_read` then copies from beyond
-- the buffer when it is asked for more than the buffer's rest (and less than 2^31).
pub erase-below_start :
    (tm : Termios) (b : Input) (len : ℕ)
    → 0 < b.tb_start
    → b.tb_start ≡ b.tb_end
    → b.tb_end ≤ buffer_size
    → is_eof tm (b.tb_data (b.tb_end - 1)) ≡ false
    → len < 2 ^ 31
    → (b' : Input) × (erase_input tm b ≡ some (b', 1))
      × (b'.tb_end < b'.tb_start)
      × (buffer_size < b'.tb_start + len → read_ready b' len ≡ none)
unfolding erase_input read_ready
erase-below_start tm b len p q r e l = (
  record b { tb_end = b.tb_end - 1 },
  ground (arith, e),
  omega arith,
  λ past. rw (wraps) (ground arith),
)
  where
    wraps : ltb (sub32 (b.tb_end - 1) b.tb_start) len ≡ false
    wraps = ground arith

-- What `memrchr` finds: the last place of the character, or that there is none.
pub last_index-cases :
    (f : ℕ → ℕ) (c n : ℕ)
    → ((last_index f c n ≡ none) × ((j : ℕ) → j < n → f j ≢ c))
      ⊎ ((i : ℕ) × (last_index f c n ≡ some i)
          × (i < n)
          × (f i ≡ c)
          × ((j : ℕ) → i < j → j < n → f j ≢ c))
unfolding last_index
last_index-cases f c zero = inl (refl, λ j h. absurd (omega arith))
last_index-cases f c (suc n) = elim (Bool-cases (f n == c)) [
  | inl here ↦
      rw here (inr (n, refl, omega arith, ==→eq (f n) c here, λ j p q. absurd (omega arith)))
  | inr other ↦ rw other (elim (last_index-cases f c n) [
    | inl (absent, all) ↦ inl (absent, λ j h. below n j h (all j) (λ e. ground (arith, other, e)))
    | inr (i, e, p, q, later) ↦
        inr (i, e, omega arith, q, λ j a h. below n j h (later j a) (λ e. ground (arith, other, e)))
  ])
]
  where
    below : (n j : ℕ) → j < suc n → (j < n → f j ≢ c) → (f n ≢ c) → f j ≢ c
    below n j h before last = elim (Bool-cases (j == n)) [
      | inl same ↦ subst (λ k. f k ≢ c) (sym (==→eq j n same)) last
      | inr other ↦ before (ground arith)
    ]

-- The character at the index `j` is the end-of-file character, where there is one. The bytes are
-- compared as `memrchr` does.
abbrev pub EofAt : Termios → Input → ℕ → Type 0
EofAt tm b j = (tm.c_cc veof ≢ 0xff) × (b.tb_data j ≡ tm.c_cc veof)

-- The edit leaves the buffer `b'`: all unread characters are gone, and none of them is the end-of-file
-- character; or the start stays and the end is the place of the last one.
abbrev pub KeepsTo : Termios → Input → Input → Type 0
KeepsTo tm b b' =
    ((b'.tb_start ≡ 0)
      × (b'.tb_end ≡ 0)
      × ((j : ℕ) → b.tb_start ≤ j → j < b.tb_end → EofAt tm b j → ⊥))
    ⊎ ((b'.tb_start ≡ b.tb_start)
        × (b.tb_start ≤ b'.tb_end)
        × (b'.tb_end < b.tb_end)
        × EofAt tm b b'.tb_end
        × ((j : ℕ) → b'.tb_end < j → j < b.tb_end → EofAt tm b j → ⊥))

abbrev pub Kills : Termios → Input → Input × ℕ → Type 0
Kills tm b (b', n) = Erased b b' n × KeepsTo tm b b'

module _ (tm : Termios) (b : Input) (w : IsValid b) where
  all_killed-Kills :
      ((j : ℕ) → b.tb_start ≤ j → j < b.tb_end → EofAt tm b j → ⊥) → Kills tm b (all_killed b)
  all_killed-Kills nowhere = (
    record {
      characters =
          ap (λ n. slice b.tb_data n (b.tb_end - n))
            (sub32-sub b.tb_end b.tb_start w.order (omega (arith, w.fits)))
          ∙ ap (slice b.tb_data (b.tb_end - b.tb_start)) (omega (arith, w.order));
      valid = record { order = omega arith; fits = omega arith };
    },
    inl (refl, refl, nowhere),
  )

  killed-Kills :
      (i : ℕ)
      → i < b.tb_end
      → EofAt tm b i
      → ((j : ℕ) → i < j → j < b.tb_end → b.tb_data j ≢ tm.c_cc veof)
      → Kills tm b (killed b (some i))
  killed-Kills i p e later = elim (Bool-cases (ltb i b.tb_start)) [
    | inl before ↦ rw before (all_killed-Kills (λ j q r e'. later j (ground arith) r e'.1))
    | inr from ↦ rw from (
      shortened-Erased b i (sub32 b.tb_end i) w (ground arith)
          (omega (arith, sub32-sub b.tb_end i (omega arith) (omega (arith, w.fits)), p)),
      inr (refl, ground arith, p, e, λ j q r e'. later j q r e'.1),
    )
  ]

  -- On a buffer whose unread characters start before they end, and end inside it, `tty_kill_input`
  -- erases unread characters from the end on, and says how many: those from the last end-of-file
  -- character among them on, that character included, or all of them where none is such.
  pub kill_input-Erased : Kills tm b (kill_input tm b)
  unfolding kill_input
  kill_input-Erased = elim (Bool-cases (tm.c_cc veof == 0xff)) [
    | inl disabled ↦
        rw disabled (all_killed-Kills (λ j p q e. e.0 (==→eq (tm.c_cc veof) 0xff disabled)))
    | inr enabled ↦ rw enabled (elim (last_index-cases b.tb_data (tm.c_cc veof) b.tb_end) [
      | inl (absent, all) ↦ rw absent (all_killed-Kills (λ j p q e. all j q e.1))
      | inr (i, e, p, q, later) ↦ rw e (killed-Kills i p (λ z. ground (arith, enabled, z), q) later)
    ])
  ]

-- The erasure of the character that was added last
pub Appended-erase :
    (tm : Termios) (b b' : Input) (c : ℕ)
    → IsValid b
    → b.tb_end < buffer_size
    → Appended b b' c
    → is_eof tm c ≡ false
    → (b'' : Input) × (erase_input tm b' ≡ some (b'', 1))
      × (contents b'' ≡ contents b)
      × (b''.tb_start ≡ b.tb_start)
      × (b''.tb_end ≡ b.tb_end)
unfolding erase_input
Appended-erase tm b b' c w h a other = (
  record b' { tb_end = b'.tb_end - 1 },
  rw (nonempty, inside, stays) refl,
  ap (λ n. slice b'.tb_data n b'.tb_start) {x = b'.tb_end - 1 - b'.tb_start}
        {y = b.tb_end - b.tb_start} (omega (arith, a.tb_start, a.tb_end))
      ∙ ap (slice b'.tb_data (b.tb_end - b.tb_start)) a.tb_start
      ∙ slice-cong b'.tb_data b.tb_data (b.tb_end - b.tb_start) b.tb_start
          (λ j p q. a.others j (omega (arith, w.order))),
  a.tb_start,
  omega (arith, a.tb_end),
)
  where
    nonempty : (b'.tb_end == 0) ≡ false
    nonempty = ground (arith, a.tb_end)

    inside : leb b'.tb_end buffer_size ≡ true
    inside = ground (arith, a.tb_end)

    stays : is_eof tm (b'.tb_data (b'.tb_end - 1)) ≡ false
    stays =
        ap (λ i. is_eof tm (b'.tb_data i)) {x = b'.tb_end - 1} {y = b.tb_end}
          (omega (arith, a.tb_end))
        ∙ ap (is_eof tm) a.last
        ∙ other
