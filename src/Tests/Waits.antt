-- ===== src/Tests/Waits.antt =====
-- Waiting in process 1 or 2 while process 3 has exited.
use os0_kernel.Prelude.{ℕ, ◌≡◌, ◌≢◌, refl, arith}
use os0_kernel.Prelude.Int.{pos, negsuc}
use os0_kernel.Process.Wait.{wait_get_status, exited, unfinished}
use os0_kernel.Process.Wait.Reports.{
  IsTree, Reported, wait_get_status-Reported, wait_get_status-ends, wait_reports_parent,
}
use os0_kernel.Tests.Processes.{kernel}

wait_get_status-Reported_example :
    Reported (kernel 2 3) (negsuc 0) (wait_get_status 4 (kernel 2 3) (negsuc 0))
wait_get_status-Reported_example = wait_get_status-Reported 4 (kernel 2 3) (negsuc 0)

-- The process ids grow from parent to child.
abbrev own_depth : ℕ → ℕ
own_depth p = p

tree : IsTree (kernel 2 3) own_depth
tree = record { falls = λ p task e nz. ground arith }

wait_get_status-ends_example : wait_get_status 5 (kernel 2 3) (pos 0) ≢ unfinished
wait_get_status-ends_example =
    wait_get_status-ends 4 (kernel 2 3) own_depth (pos 0) tree (omega arith)

wait_reports_parent_example : wait_get_status 2 (kernel 1 3) (negsuc 0) ≡ exited 2 0
wait_reports_parent_example =
    wait_reports_parent 0 (kernel 1 3) 2 (omega arith) refl refl (omega arith) (omega arith) refl
      refl
