-- ===== src/Process/Wait/Climbs.antt =====
-- Where the walk to the parents in `wait_get_status` of kernel/wait.c ends.
use os0_kernel.Prelude.{
  ℕ, zero, suc, ◌≡◌, ◌≢◌, refl, true, false, none, some, arith, ◌==◌, Option-cases, Bool-cases, inl,
  inr, ==→eq,
}
use os0_kernel.Process.State.{Kernel, Task}
use os0_kernel.Process.Wait.{Climb, at, fault, more, climb}

-- `q` is `p` or an ancestor of `p`.
pub data Ancestor (k : Kernel) (q : ℕ) : ℕ → Type 0 where
  self : Ancestor k q q
  up :
      (p : ℕ) (task : Task) → (k.table p).task ≡ some task → Ancestor k q task.ppid → Ancestor k q p

-- A child of `curr` that is `p` or an ancestor of `p`.
pub record ChildAbove (k : Kernel) (curr p q : ℕ) : Type 0 where
  pub above : Ancestor k q p
  pub task : Task
  pub has_task : (k.table q).task ≡ some task
  pub child : task.ppid ≡ curr

-- What the walk from `p` says about where it ends.
abbrev pub Reached : Kernel → ℕ → ℕ → Climb → Type 0
Reached k curr p (at zero) = Unit
Reached k curr p (at (suc q)) = ChildAbove k curr p (suc q)
Reached k curr p fault = Unit
Reached k curr p more = Unit

Reached-up :
    (k : Kernel) (curr p : ℕ) (task : Task) (c : Climb)
    → (k.table p).task ≡ some task
    → Reached k curr task.ppid c
    → Reached k curr p c
Reached-up k curr p task (at zero) e r = tt
Reached-up k curr p task (at (suc q)) e r = record {
  above = up p task e r.above;
  task = r.task;
  has_task = r.has_task;
  child = r.child;
}
Reached-up k curr p task fault e r = tt
Reached-up k curr p task more e r = tt

-- One round of the walk.
module _ (fuel : ℕ) (k : Kernel) (curr p : ℕ) where
  pub climb-root : p ≡ 0 → climb (suc fuel) k curr p ≡ at 0
  unfolding climb
  climb-root z = ground arith

  pub climb-fault : p ≢ 0 → (k.table p).task ≡ none → climb (suc fuel) k curr p ≡ fault
  unfolding climb
  climb-fault nz e = ground arith

  module _ {task : Task} (nz : p ≢ 0) (e : (k.table p).task ≡ some task) where
    pub climb-child : (task.ppid == curr) ≡ true → climb (suc fuel) k curr p ≡ at p
    unfolding climb
    climb-child same = ground arith

    pub climb-up :
        (task.ppid == curr) ≡ false → climb (suc fuel) k curr p ≡ climb fuel k curr task.ppid
    unfolding climb
    climb-up other = ground arith

pub climb-Reached : (fuel : ℕ) (k : Kernel) (curr p : ℕ) → Reached k curr p (climb fuel k curr p)
climb-Reached zero k curr p = unfold climb in tt
climb-Reached (suc fuel) k curr zero = rw (climb-root fuel k curr zero refl) tt
climb-Reached (suc fuel) k curr (suc p) = elim (Option-cases (k.table (suc p)).task) [
  | inl e ↦ rw (climb-fault fuel k curr (suc p) (omega arith) e) tt
  | inr (task, e) ↦ elim (Bool-cases (task.ppid == curr)) [
    | inl same ↦
        rw (climb-child fuel k curr (suc p) (omega arith) e same)
          (record { above = self; task = task; has_task = e; child = ==→eq _ _ same })
    | inr other ↦
        rw (climb-up fuel k curr (suc p) (omega arith) e other)
          (Reached-up k curr (suc p) task _ e (climb-Reached fuel k curr task.ppid))
  ]
]
