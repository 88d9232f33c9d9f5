-- ===== src/Tests/Descriptors.antt =====
-- Two processes that open, duplicate and close files.
use os0_kernel.Prelude.{ℕ, List, [], ◌∷◌, arith}
use os0_kernel.Prelude.Int.{ℤ, pos, negsuc}
use os0_kernel.Prelude.Ends.{Ends}
use os0_kernel.Process.Files.{Limits, f_dupfd}
use os0_kernel.Process.Files.System.{Inv}
use os0_kernel.Process.Files.System.Runs.{Op, alloc, free, control, run, run-Inv, boot, boot-Inv}

abbrev limits : Limits
limits = record { sys_file_limit = 4; file_limit = 4 }

-- The bits of an `int`.
abbrev raw : ℤ → ℕ
raw (pos n) = n
raw (negsuc n) = 4294967295

abbrev calls : List Op
calls = alloc 1 0 ∷ control 1 (pos 0) f_dupfd (pos 2) ∷ alloc 0 1 ∷ free 1 0 ∷ []

run-Inv_example : Ends (Inv limits 2) (run raw limits 2 boot calls)
run-Inv_example =
    run-Inv raw limits 2 calls boot
      (
        (omega arith, omega arith),
        (omega arith, ((omega arith, omega arith), ((omega arith, omega arith), tt))),
      )
      (boot-Inv limits 2)
