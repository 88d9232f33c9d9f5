-- ===== src/Process/Ids/Users.antt =====
-- The calls of uapi/id.c that set user and group ids, in sequence.
use os0_kernel.Prelude.{
  ℕ, ◌≡◌, ◌≢◌, sym, ==-ne, ==→eq, Bool, true, false, List, [], ◌∷◌, arith, Result, ok, err, ◌==◌,
}
use os0_kernel.Process.State.{Ids}
use os0_kernel.Process.Ids.{id16, setuid, setgid, setreuid, setregid, setresuid, setresgid}

pub data Call : Type 0 where
  setuids setgids : ℕ → Call
  setreuids setregids : ℕ → ℕ → Call
  setresuids setresgids : ℕ → ℕ → ℕ → Call

pub call : Ids → Call → Result Ids
call i (setuids uid) = setuid i uid
call i (setgids gid) = setgid i gid
call i (setreuids ruid euid) = setreuid i ruid euid
call i (setregids rgid egid) = setregid i rgid egid
call i (setresuids ruid euid suid) = setresuid i ruid euid suid
call i (setresgids rgid egid sgid) = setresgid i rgid egid sgid

-- A call that fails leaves the ids as they were.
abbrev pub after : Ids → Result Ids → Ids
after i (ok j) = j
after i (err e) = i

pub run : Ids → List Call → Ids
run i [] = i
run i (c ∷ cs) = run (after i (call i c)) cs

-- The test `u` is true of the three user ids, and `g` of the three group ids.
pub record Allowed (u g : ℕ → Bool) (i : Ids) : Type 0 where
  pub uid : u i.uid ≡ true
  pub euid : u i.euid ≡ true
  pub suid : u i.suid ≡ true
  pub gid : g i.gid ≡ true
  pub egid : g i.egid ≡ true
  pub sgid : g i.sgid ≡ true

module _ (u g : ℕ → Bool) (no_root : u 0 ≡ false) where
  setuid-Allowed : (i : Ids) (uid : ℕ) → Allowed u g i → Allowed u g (after i (setuid i uid))
  unfolding setuid
  setuid-Allowed i uid a = ground arith

  setgid-Allowed : (i : Ids) (gid : ℕ) → Allowed u g i → Allowed u g (after i (setgid i gid))
  unfolding setgid
  setgid-Allowed i gid a = ground arith

  setreuid-Allowed :
      (i : Ids) (ruid euid : ℕ) → Allowed u g i → Allowed u g (after i (setreuid i ruid euid))
  unfolding setreuid
  setreuid-Allowed i ruid euid a = ground arith

  setregid-Allowed :
      (i : Ids) (rgid egid : ℕ) → Allowed u g i → Allowed u g (after i (setregid i rgid egid))
  unfolding setregid
  setregid-Allowed i rgid egid a = ground arith

  setresuid-Allowed :
      (i : Ids) (ruid euid suid : ℕ)
      → Allowed u g i
      → Allowed u g (after i (setresuid i ruid euid suid))
  unfolding setresuid
  setresuid-Allowed i ruid euid suid a = ground arith

  setresgid-Allowed :
      (i : Ids) (rgid egid sgid : ℕ)
      → Allowed u g i
      → Allowed u g (after i (setresgid i rgid egid sgid))
  unfolding setresgid
  setresgid-Allowed i rgid egid sgid a = ground arith

  call-Allowed : (i : Ids) (c : Call) → Allowed u g i → Allowed u g (after i (call i c))
  unfolding call
  call-Allowed i (setuids uid) a = setuid-Allowed i uid a
  call-Allowed i (setgids gid) a = setgid-Allowed i gid a
  call-Allowed i (setreuids ruid euid) a = setreuid-Allowed i ruid euid a
  call-Allowed i (setregids rgid egid) a = setregid-Allowed i rgid egid a
  call-Allowed i (setresuids ruid euid suid) a = setresuid-Allowed i ruid euid suid a
  call-Allowed i (setresgids rgid egid sgid) a = setresgid-Allowed i rgid egid sgid a

  -- No sequence of calls that set user and group ids lets a process gain an id: whatever set of
  -- user ids that does not contain 0 holds the real, effective and saved user ids of the process
  -- at first, and whatever set of group ids holds its three group ids, they hold them at the end.
  pub run-Allowed : (cs : List Call) (i : Ids) → Allowed u g i → Allowed u g (run i cs)
  unfolding run
  run-Allowed [] i a = a
  run-Allowed (c ∷ cs) i a = run-Allowed cs (after i (call i c)) (call-Allowed i c a)

-- A call of `sys_setuid` with an id that is not 0 in its 16 bits, where it succeeds, sets the real,
-- effective and saved user ids to it, and no later sequence of calls changes any of them again.
pub setuid-permanent :
    (i : Ids) (uid : ℕ) (cs : List Call) {j : Ids}
    → id16 uid ≢ 0
    → setuid i uid ≡ ok j
    → ((run j cs).uid ≡ id16 uid) × ((run j cs).euid ≡ id16 uid) × ((run j cs).suid ≡ id16 uid)
setuid-permanent i uid cs {j} ne e =
    let a =
      run-Allowed (λ x. x == id16 uid) (λ x. true) (==-ne 0 (id16 uid) (λ z. ne (sym z))) cs j
        all_set in
    (==→eq _ _ a.uid, ==→eq _ _ a.euid, ==→eq _ _ a.suid)
  where
    all_set : Allowed (λ x. x == id16 uid) (λ x. true) j
    all_set = unfold setuid in ground arith
