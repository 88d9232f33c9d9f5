-- ===== src/Drivers/Tty/Control.antt =====
-- The characters of drivers/tty-line.c that signal, and those that erase.
use os0_kernel.Prelude.{
  ℕ, zero, suc, ◌+◌, ◌-◌, ◌≡◌, refl, ◌∙◌, ap, sym, subst, Bool, true, false, ◌&&◌, some, List, [],
  ◌∷◌, ◌++◌, arith, ltb, leb, ◌||◌, ◌==◌, if◌then◌else◌, ◌⊎◌, inl, inr, Bool-cases, ==→eq,
}
use os0_kernel.Drivers.Input.{Termios, char_match, has_lflag, icanon}
use os0_kernel.Drivers.Tty.{
  Emulator, Tty, Processes, members, each_sent, signal_of, signalled, edit, after_edit,
  process_input, isig, raw, vintr, vsusp, vquit,
}
use os0_kernel.Drivers.Tty.Typing.{Unedited, Unedited-edit}

abbrev pub contains : ℕ → List ℕ → Bool
contains j [] = false
contains j (i ∷ is) = j == i || contains j is

-- The processes of a group and no other
members-contains :
    (pgid : ℕ → ℕ) (g n i j : ℕ)
    → contains j (members pgid g n i) ≡ (leb i j && (ltb j (i + n) && pgid j == g))
members-contains pgid g zero i j = ground arith
members-contains pgid g (suc n) i j = elim (Bool-cases (j == i)) [
  | inl same ↦
      subst
        (λ k.
          contains k (members pgid g (suc n) i) ≡ (leb i k && (ltb k (i + suc n) && pgid k == g)))
        (sym (==→eq j i same)) (ground (arith, members-contains pgid g n (i + 1) i))
  | inr other ↦ elim (Bool-cases (pgid i == g)) [
    | inl member ↦ rw (member, other) (members-contains pgid g n (i + 1) j ∙ ground arith)
    | inr no_member ↦ rw no_member (members-contains pgid g n (i + 1) j ∙ ground arith)
  ]
]

-- The signal that a character stands for: 2 (SIGINT) for the character of VINTR, else 20 (SIGTSTP)
-- for that of VSUSP, else 3 (SIGQUIT) for that of VQUIT.
abbrev pub StandsFor : Termios → ℕ → ℕ → Type 0
StandsFor tm c sig =
    ((char_match tm c vintr ≡ true) × (sig ≡ 2))
    ⊎ (((char_match tm c vintr ≡ false) × (char_match tm c vsusp ≡ true) × (sig ≡ 20))
        ⊎ ((char_match tm c vintr ≡ false)
            × (char_match tm c vsusp ≡ false)
            × (char_match tm c vquit ≡ true)
            × (sig ≡ 3)))

signal_of-StandsFor : (tm : Termios) (c sig : ℕ) → StandsFor tm c sig → signal_of tm c ≡ sig
signal_of-StandsFor tm c sig (inl (a, e)) = rw a (sym e)
signal_of-StandsFor tm c sig (inr (inl (a, b, e))) = rw (a, b) (sym e)
signal_of-StandsFor tm c sig (inr (inr (a, b, d, e))) = rw (a, b, d) (sym e)

StandsFor-positive : (tm : Termios) (c sig : ℕ) → StandsFor tm c sig → (sig == 0) ≡ false
StandsFor-positive tm c sig (inl (a, e)) = ground (arith, e)
StandsFor-positive tm c sig (inr (inl (a, b, e))) = ground (arith, e)
StandsFor-positive tm c sig (inr (inr (a, b, d, e))) = ground (arith, e)

-- A character that is not quoted, that stands for a signal, with ISIG set, and that the line
-- discipline does not use in canonical mode, sends the signal (2 for VINTR, 20 for VSUSP, 3 for
-- VQUIT, in this order) to the processes of the terminal's foreground group, from 1 on below
-- PROCESS_LIMIT, and to no others; nothing else of the terminal changes, and the character is not
-- echoed.
pub signals_group :
    {S : Type 0} (e : Emulator S) (ps : Processes) (t : Tty S) (c sig : ℕ)
    → t.quoted ≡ false
    → (has_lflag t.termios icanon ≡ false) ⊎ Unedited t.termios c
    → has_lflag t.termios isig ≡ true
    → StandsFor t.termios c sig
    → (group : List ℕ) × (process_input e ps t c
        ≡ some (record t { sent = t.sent ++ each_sent sig group }))
      × ((j : ℕ) → contains j group ≡ (leb 1 j && (ltb j ps.limit && ps.p_pgid j == t.fg_pgid)))
unfolding process_input signalled
signals_group e ps t c sig q mode on stands = (
  members ps.p_pgid t.fg_pgid (ps.limit - 1) 1,
  ap
        (λ x.
          if x
          then raw e (record t { quoted = false }) c
          else if has_lflag t.termios icanon
          then after_edit e ps t c (edit e t c)
          else signalled e ps t c)
        q
      ∙ past_edit mode
      ∙ rw
          (
            on,
            signal_of-StandsFor t.termios c sig stands,
            StandsFor-positive t.termios c sig stands,
          )
          refl,
  λ j. members-contains ps.p_pgid t.fg_pgid (ps.limit - 1) 1 j ∙ ground arith,
)
  where
    past_edit :
        (has_lflag t.termios icanon ≡ false) ⊎ Unedited t.termios c
        → (if has_lflag t.termios icanon
            then after_edit e ps t c (edit e t c)
            else signalled e ps t c)
          ≡ signalled e ps t c
    past_edit (inl off) = rw off refl
    past_edit (inr unused) =
        rw (Unedited-edit e ps t c unused) (elim (Bool-cases (has_lflag t.termios icanon)) [
          | inl canon ↦ rw canon refl
          | inr off ↦ rw off refl
        ])
