-- ===== src/Process/Wait/Reports.antt =====
-- Which processes `wait_get_status` of kernel/wait.c reports.
use os0_kernel.Prelude.{
  ℕ, zero, suc, ◌<◌, ◌≡◌, ◌≢◌, refl, Bool, true, false, some, arith, ◌==◌, Option-cases, Bool-cases,
  inl, inr, ==→eq, sym, if◌then◌else◌,
}
use native.Mathlib.Decide.{ℕ_discrete}
use os0_kernel.Prelude.Int.{ℤ, pos, negsuc}
use os0_kernel.Process.State.{Kernel, Task}
use os0_kernel.Process.Ids.{ids_of}
use os0_kernel.Process.Wait.{
  Climb, at, fault, more, climb, climbed, wait_get_status, Status, exited, nobody, failed, crashed,
  unfinished, reported,
}
use os0_kernel.Process.Wait.Climbs.{
  ChildAbove, Reached, climb-root, climb-fault, climb-Reached, climb-child, climb-up,
}

-- A measure that falls from each process to its parent, as in a tree of processes.
pub record IsTree (k : Kernel) (depth : ℕ → ℕ) : Type 0 where
  pub falls :
      (p : ℕ) (task : Task)
      → (k.table p).task ≡ some task
      → task.ppid ≢ 0
      → depth task.ppid < depth p

climb-enough :
    (fuel : ℕ) (k : Kernel) (depth : ℕ → ℕ) (curr p : ℕ)
    → IsTree k depth
    → depth p < fuel
    → climb (suc fuel) k curr p ≢ more
climb-enough zero k depth curr p t h = absurd (omega arith)
climb-enough (suc fuel) k depth curr zero t h =
    rw (climb-root (suc fuel) k curr zero refl) (λ e. cc)
climb-enough (suc fuel) k depth curr (suc p) t h = elim (Option-cases (k.table (suc p)).task) [
  | inl e ↦ rw (climb-fault (suc fuel) k curr (suc p) (omega arith) e) (λ x. cc)
  | inr (task, e) ↦ elim (Bool-cases (task.ppid == curr)) [
    | inl same ↦ rw (climb-child (suc fuel) k curr (suc p) (omega arith) e same) (λ x. cc)
    | inr other ↦
        rw (climb-up (suc fuel) k curr (suc p) (omega arith) e other)
          (elim (ℕ_discrete task.ppid 0) [
            | yes z ↦ rw (climb-root fuel k curr task.ppid z) (λ x. cc)
            | no nz ↦
                climb-enough fuel k depth curr task.ppid t
                  (omega (arith, t.falls (suc p) task e nz))
          ])
  ]
]

climbed-unfinished :
    (k : Kernel) (same_group : Bool) (c : Climb) → climbed k same_group c ≡ unfinished → c ≡ more
climbed-unfinished k same_group more e = refl
climbed-unfinished k same_group fault e = cc
climbed-unfinished k same_group (at q) e = absurd (ground arith)

-- What a report says: a process that is the one that exited, or an ancestor of it, and that is a
-- child of the caller; where a process id was asked for, exactly that one, and for a `pid` below
-- -1 none.
abbrev pub Reported : Kernel → ℤ → Status → Type 0
Reported k pid nobody = Unit
Reported k pid (failed e) = Unit
Reported k pid crashed = Unit
Reported k pid unfinished = Unit
Reported k (negsuc zero) (exited q status) =
    ChildAbove k k.current k.exit_task q × (status ≡ (k.table q).waitstat)
Reported k (negsuc (suc n)) (exited q status) = ⊥
Reported k (pos zero) (exited q status) =
    ChildAbove k k.current k.exit_task q
    × (status ≡ (k.table q).waitstat)
    × ((ids_of k q).pgid ≡ (ids_of k k.current).pgid)
Reported k (pos (suc n)) (exited q status) =
    (q ≡ suc n) × (q ≡ k.exit_task) × (status ≡ (k.table q).waitstat)

positive_ne : (q : ℕ) → (suc q == 0) ≡ false
positive_ne q = ground arith

climbed-any :
    (k : Kernel) (c : Climb)
    → Reached k k.current k.exit_task c
    → Reported k (negsuc 0) (climbed k false c)
climbed-any k (at zero) r = tt
climbed-any k (at (suc q)) r = rw (positive_ne q) (r, refl)
climbed-any k fault r = tt
climbed-any k more r = tt

climbed-group :
    (k : Kernel) (c : Climb)
    → Reached k k.current k.exit_task c
    → Reported k (pos zero) (climbed k true c)
climbed-group k (at zero) r = tt
climbed-group k (at (suc q)) r =
    rw (positive_ne q) (elim (Bool-cases ((ids_of k k.current).pgid == (ids_of k (suc q)).pgid)) [
      | inl same ↦ rw same (r, refl, sym (==→eq _ _ same))
      | inr other ↦ rw other tt
    ])
climbed-group k fault r = tt
climbed-group k more r = tt

-- `wait_get_status` reports the process that exited last or an ancestor of it. For -1 and 0 it is a
-- child of the caller, and for 0 also one of its process group; for a positive process id it is
-- that process, and the one that exited; for any other `pid` nothing is reported. The status is the wait status of the process reported.
pub wait_get_status-Reported :
    (fuel : ℕ) (k : Kernel) (pid : ℤ) → Reported k pid (wait_get_status fuel k pid)
unfolding wait_get_status
wait_get_status-Reported fuel k pid = elim (Bool-cases (k.exit_task == 0)) [
  | inl e ↦ rw e (none_yet pid)
  | inr e ↦ rw e (by_pid pid)
]
  where
    none_yet : (pid : ℤ) → Reported k pid nobody
    none_yet (negsuc n) = tt
    none_yet (pos zero) = tt
    none_yet (pos (suc n)) = tt

    by_pid :
        (pid : ℤ)
        → Reported k pid (elim pid [
          | negsuc n ↦
              if n == 0 then climbed k false (climb fuel k k.current k.exit_task) else nobody
          | pos n ↦
              if n == 0
              then climbed k true (climb fuel k k.current k.exit_task)
              else if k.exit_task == n
              then reported k k.exit_task
              else nobody
        ])
    by_pid (negsuc zero) = climbed-any k _ (climb-Reached fuel k k.current k.exit_task)
    by_pid (negsuc (suc n)) = rw (positive_ne n) tt
    by_pid (pos zero) = climbed-group k _ (climb-Reached fuel k k.current k.exit_task)
    by_pid (pos (suc n)) = elim (Bool-cases (k.exit_task == suc n)) [
      | inl same ↦ rw (positive_ne n, same) (==→eq _ _ same, refl, refl)
      | inr other ↦ rw (positive_ne n, other) tt
    ]

-- With as much fuel as the process that exited is deep in a tree of processes, and two rounds more,
-- the walk of `wait_get_status` ends.
pub wait_get_status-ends :
    (fuel : ℕ) (k : Kernel) (depth : ℕ → ℕ) (pid : ℤ)
    → IsTree k depth
    → depth k.exit_task < fuel
    → wait_get_status (suc fuel) k pid ≢ unfinished
unfolding wait_get_status
wait_get_status-ends fuel k depth pid t h = elim (Bool-cases (k.exit_task == 0)) [
  | inl e ↦ rw e (λ u. cc)
  | inr e ↦ rw e (by_pid pid)
]
  where
    walked :
        (same_group : Bool)
        → climbed k same_group (climb (suc fuel) k k.current k.exit_task) ≢ unfinished
    walked same_group u =
        climb-enough fuel k depth k.current k.exit_task t h (climbed-unfinished k same_group _ u)

    by_pid :
        (pid : ℤ)
        → (elim pid [
          | negsuc n ↦
              if n == 0 then climbed k false (climb (suc fuel) k k.current k.exit_task) else nobody
          | pos n ↦
              if n == 0
              then climbed k true (climb (suc fuel) k k.current k.exit_task)
              else if k.exit_task == n
              then reported k k.exit_task
              else nobody
        ])
          ≢ unfinished
    by_pid (negsuc n) = ground (arith, walked false)
    by_pid (pos n) = ground (arith, walked true)

-- A process that has not terminated is reported where a child of it exits: for -1, if the parent of
-- the process that exited is not the caller but a child of the caller, `wait_get_status` answers
-- that parent with its wait status, whether it has terminated or not.
pub wait_reports_parent :
    (fuel : ℕ) (k : Kernel) (mid : ℕ) {task above : Task}
    → k.exit_task ≢ 0
    → (k.table k.exit_task).task ≡ some task
    → task.ppid ≡ mid
    → mid ≢ 0
    → mid ≢ k.current
    → (k.table mid).task ≡ some above
    → above.ppid ≡ k.current
    → wait_get_status (suc (suc fuel)) k (negsuc 0) ≡ exited mid (k.table mid).waitstat
unfolding wait_get_status climb
wait_reports_parent fuel k mid ne e p nz far e' child = ground arith
