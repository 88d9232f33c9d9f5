-- ===== src/Process/Ids/Groups.antt =====
-- Process groups and sessions: `sys_setpgid` and `sys_setsid` of uapi/id.c, by any processes.
use native.Mathlib.Decide.{ℕ_discrete}
use os0_kernel.Prelude.{
  ℕ, zero, suc, ◌+◌, ◌≤◌, ◌<◌, ◌≡◌, ◌≢◌, true, false, List, [], ◌∷◌, inl, inr, arith, Result, ok,
  err, ◌==◌, if◌then◌else◌, Bool-cases,
}
use os0_kernel.Prelude.Int.{ℤ, pos, negsuc}
use os0_kernel.Process.State.{Kernel}
use os0_kernel.Process.Ids.{
  ids_of, with_ids, process_valid, or_caller, setpgid_to, setpgid, leads_others, setsid,
}

pub data Call : Type 0 where
  setpgids : ℤ → ℤ → Call
  setsids : Call

abbrev after : Kernel → Result Kernel → Kernel
after k (ok k') = k'
after k (err e) = k

abbrev after_setsid : Kernel → Result (ℕ × Kernel) → Kernel
after_setsid k (ok (pid, k')) = k'
after_setsid k (err e) = k

-- A call by the process `caller`.
pub step : Kernel → ℕ × Call → Kernel
step k (caller, setpgids pid pgid) =
    let k' = record k { current = caller } in after k' (setpgid k' pid pgid)
step k (caller, setsids) = let k' = record k { current = caller } in after_setsid k' (setsid k')

pub run : Kernel → List (ℕ × Call) → Kernel
run k [] = k
run k (c ∷ cs) = run (step k c) cs

-- Every process of a group whose leader exists is in the session of the leader.
abbrev pub OneSession : Kernel → Type 0
OneSession k =
    (j : ℕ)
    → j < k.limit
    → process_valid k (pos (ids_of k j).pgid) ≡ true
    → (ids_of k j).sid ≡ (ids_of k (ids_of k j).pgid).sid

-- The loop finds any process of the group.
leads_others-false :
    (k : Kernel) (pid n i j : ℕ)
    → leads_others k pid n i ≡ false
    → i ≤ j
    → j < i + n
    → j ≢ pid
    → (ids_of k j).pgid ≢ pid
unfolding leads_others
leads_others-false k pid zero i j e p q ne = absurd (omega arith)
leads_others-false k pid (suc n) i j e p q ne = elim (ℕ_discrete i j) [
  | yes same ↦ λ g. ground arith
  | no differ ↦ leads_others-false k pid n (suc i) j (ground arith) (omega arith) (omega arith) ne
]

module _ (k : Kernel) (inv : OneSession k) where
  setpgid_to-OneSession : (pid : ℤ) (pgid : ℕ) → OneSession (after k (setpgid_to k pid pgid))
  unfolding process_valid
  setpgid_to-OneSession (negsuc n) pgid = inv
  setpgid_to-OneSession (pos pid) pgid = λ j lt v. ground (arith, inv j)

  setpgid-OneSession : (pid pgid : ℤ) → OneSession (after k (setpgid k pid pgid))
  unfolding setpgid
  setpgid-OneSession pid (negsuc n) = inv
  setpgid-OneSession pid (pos pgid) =
      setpgid_to-OneSession (or_caller k pid) (if pgid == 0 then k.current else pgid)

  -- What `sys_setsid` leaves where no other process is in the caller's group.
  new_session : Kernel
  new_session =
      with_ids k k.current (record (ids_of k k.current) { pgid = k.current; sid = k.current })

  new_session-OneSession : leads_others k k.current k.limit 0 ≡ false → OneSession new_session
  unfolding new_session process_valid
  new_session-OneSession e j lt v = elim (ℕ_discrete j k.current) [
    | yes same ↦ ground arith
    | no differ ↦
        let apart : (ids_of k j).pgid ≢ k.current =
          leads_others-false k k.current k.limit 0 j e (omega arith) (omega arith) differ in
        ground (arith, inv j)
  ]

  setsid-OneSession : OneSession (after_setsid k (setsid k))
  unfolding setsid new_session
  setsid-OneSession = elim (Bool-cases (leads_others k k.current k.limit 0)) [
    | inl e ↦ rw e inv
    | inr e ↦ rw e (new_session-OneSession e)
  ]

step-OneSession : (k : Kernel) (c : ℕ × Call) → OneSession k → OneSession (step k c)
unfolding step process_valid
step-OneSession k (caller, setpgids pid pgid) inv =
    setpgid-OneSession (record k { current = caller }) inv pid pgid
step-OneSession k (caller, setsids) inv = setsid-OneSession (record k { current = caller }) inv

-- Any sequence of calls of `sys_setpgid` and `sys_setsid`, by any processes, keeps this: where
-- the leader of a group exists, every process of the group is in the session of the leader.
pub run-OneSession : (cs : List (ℕ × Call)) (k : Kernel) → OneSession k → OneSession (run k cs)
unfolding run
run-OneSession [] k inv = inv
run-OneSession (c ∷ cs) k inv = run-OneSession cs (step k c) (step-OneSession k c inv)
