-- ===== src/Drivers/Input/Bounds.antt =====
-- The operations on the input buffer of drivers/tty-line.c stay in it while its front is unread.
use os0_kernel.Prelude.{
  ℕ, ◌+◌, ◌-◌, ◌≤◌, ◌<◌, ◌≡◌, refl, ap, true, ◌||◌, ◌&&◌, Option, arith, ltb, leb, ◌==◌, ◌!=◌,
  if◌then◌else◌, inl, inr, Bool-cases,
}
use os0_kernel.Prelude.Ends.{Ends, Ends-if}
use os0_kernel.Drivers.Input.{
  Termios, Input, buffer_size, has_lflag, has_iflag, icanon, imaxbel, is_eof, add_char, set_ready,
  flush_input_line, erase_input, all_killed, kill_input,
}
use os0_kernel.Drivers.Input.Contents.{IsValid, add_char-cases}
use os0_kernel.Drivers.Input.Editing.{last_index-cases}

-- Nothing at the front of the buffer has been read, and the end is in it.
pub record FromFront (b : Input) : Type 0 where
  pub tb_start : b.tb_start ≡ 0
  pub tb_end : b.tb_end ≤ buffer_size

pub FromFront-IsValid : (b : Input) → FromFront b → IsValid b
FromFront-IsValid b f = record { order = omega (arith, f.tb_start); fits = f.tb_end }

pub add_char-FromFront :
    (tm : Termios) (b : Input) (c : ℕ)
    → FromFront b
    → b.tb_end < buffer_size
    → Ends FromFront (add_char tm b c)
add_char-FromFront tm b c f h =
    rw (add_char-cases tm b c f.tb_start f.tb_end)
      (elim (Bool-cases (
        ltb b.tb_end (buffer_size - 1)
        || (b.tb_end == buffer_size - 1 && (has_lflag tm icanon && c == 10)))) [
          | inl fits ↦ rw fits (_, refl, record { tb_start = f.tb_start; tb_end = omega arith })
          | inr full ↦ rw full (elim (Bool-cases (has_lflag tm icanon && c == 10)) [
            | inl newline ↦ absurd (ground (arith, full, newline))
            | inr other ↦ rw other (_, refl, dropped)
          ])
        ])
  where
    dropped : FromFront (if has_iflag tm imaxbel then record b { beeps = b.beeps + 1 } else b)
    dropped = elim (Bool-cases (has_iflag tm imaxbel)) [
      | inl bell ↦ rw bell (record { tb_start = f.tb_start; tb_end = f.tb_end })
      | inr silent ↦ rw silent f
    ]

set_ready-FromFront : (o : Option Input) → Ends FromFront o → Ends FromFront (set_ready o)
set_ready-FromFront o (b, e, f) =
    (record b { ready = true }, ap set_ready e, record { tb_start = f.tb_start; tb_end = f.tb_end })

pub flush_input_line-FromFront :
    (tm : Termios) (b : Input) (c : ℕ)
    → FromFront b
    → b.tb_end < buffer_size
    → Ends FromFront (flush_input_line tm b c)
unfolding flush_input_line
flush_input_line-FromFront tm b c f h =
    set_ready-FromFront _ (Ends-if (c != 0) (add_char-FromFront tm b c f h) (b, refl, f))

abbrev pub FirstFromFront : Input × ℕ → Type 0
FirstFromFront (b, n) = FromFront b

pub erase_input-FromFront :
    (tm : Termios) (b : Input) → FromFront b → Ends FirstFromFront (erase_input tm b)
unfolding erase_input
erase_input-FromFront tm b f = elim (Bool-cases (b.tb_end == 0)) [
  | inl empty ↦ rw empty ((b, 0), refl, f)
  | inr more ↦ elim (Bool-cases (is_eof tm (b.tb_data (b.tb_end - 1)))) [
    | inl eof ↦ rw (more, inside, eof) ((b, 0), refl, f)
    | inr other ↦
        rw (more, inside, other)
          (
            (record b { tb_end = b.tb_end - 1 }, 1),
            refl,
            record { tb_start = f.tb_start; tb_end = omega (arith, f.tb_end) },
          )
  ]
]
  where
    inside : leb b.tb_end buffer_size ≡ true
    inside = ground (arith, f.tb_end)

pub kill_input-FromFront :
    (tm : Termios) (b : Input) → FromFront b → FirstFromFront (kill_input tm b)
unfolding kill_input
kill_input-FromFront tm b f = elim (Bool-cases (tm.c_cc 4 == 0xff)) [
  | inl disabled ↦ rw disabled none_left
  | inr enabled ↦ rw enabled (elim (last_index-cases b.tb_data (tm.c_cc 4) b.tb_end) [
    | inl (absent, all) ↦ rw absent none_left
    | inr (i, e, p, q, later) ↦ rw e (elim (Bool-cases (ltb i b.tb_start)) [
      | inl before ↦ rw before none_left
      | inr from ↦ rw from (record { tb_start = f.tb_start; tb_end = omega (arith, f.tb_end) })
    ])
  ])
]
  where
    none_left : FirstFromFront (all_killed b)
    none_left = record { tb_start = refl; tb_end = omega arith }
