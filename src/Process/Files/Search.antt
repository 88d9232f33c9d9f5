-- ===== src/Process/Files/Search.antt =====
-- What the two searches find.
use os0_kernel.Prelude.{ℕ, zero, suc, Option, inl, inr, arith, ◌==◌, is_none, Bool-cases}
use os0_kernel.Prelude.First.{First, First-here, First-later}
use os0_kernel.Process.Files.{File, find_file, find_fd}

pub find_file-First :
    (table : ℕ → File) (n i : ℕ) → First (λ j. (table j).refcnt == 0) n i (find_file table n i)
unfolding find_file
find_file-First table zero i = λ j p q. absurd (omega arith)
find_file-First table (suc n) i = elim (Bool-cases ((table i).refcnt == 0)) [
  | inl e ↦ rw (e, find_file) (First-here (λ j. (table j).refcnt == 0) n i e)
  | inr e ↦
      rw (e, find_file)
        (First-later (λ j. (table j).refcnt == 0) n i _ e (find_file-First table n (suc i)))
]

pub find_fd-First :
    (files : ℕ → Option ℕ) (n fd : ℕ) → First (λ j. is_none (files j)) n fd (find_fd files n fd)
unfolding find_fd
find_fd-First files zero fd = λ j p q. absurd (omega arith)
find_fd-First files (suc n) fd = elim (Bool-cases (is_none (files fd))) [
  | inl e ↦ rw (e, find_fd) (First-here (λ j. is_none (files j)) n fd e)
  | inr e ↦
      rw (e, find_fd)
        (First-later (λ j. is_none (files j)) n fd _ e (find_fd-First files n (suc fd)))
]
