-- ===== src/Tests/Users.antt =====
-- User and group ids, sessions, and permissions.
use os0_kernel.Prelude.{ℕ, ◌≡◌, ◌==◌, ◌||◌, Bool, false, refl, ok, List, [], ◌∷◌, arith}
use os0_kernel.Prelude.Int.{pos}
use os0_kernel.Process.State.{Ids}
use os0_kernel.Process.Ids.{setuid, process_valid}
use os0_kernel.Process.Ids.Users
use os0_kernel.Process.Ids.Users.{
  setresuids, setreuids, setgids, setuids, Allowed, run-Allowed, setuid-permanent,
}
use os0_kernel.Process.Ids.Groups
use os0_kernel.Process.Ids.Groups.{setpgids, setsids, OneSession, run-OneSession}
use os0_kernel.Fs.Perm.{Inode, check_read}
use os0_kernel.Fs.Perm.Classes.{verdict, may_access, check_read_lem}
use os0_kernel.Tests.Processes.{kernel, user}

-- The real user is 1000, the effective and saved one 7, as in a set-user-id program.
abbrev elevated : Ids
elevated = record user { euid = 7; suid = 7 }

abbrev users : ℕ → Bool
users u = u == 1000 || u == 7

abbrev groups : ℕ → Bool
groups g = g == 100

abbrev calls : List Users.Call
calls = setreuids 7 1000 ∷ setuids 0 ∷ setresuids 1000 7 1000 ∷ setgids 100 ∷ []

elevated-Allowed : Allowed users groups elevated
elevated-Allowed = record {
  uid = refl;
  euid = refl;
  suid = refl;
  gid = refl;
  egid = refl;
  sgid = refl;
}

run-Allowed_example : Allowed users groups (Users.run elevated calls)
run-Allowed_example = run-Allowed users groups refl calls elevated elevated-Allowed

abbrev root : Ids
root = record user { uid = 0; euid = 0; suid = 0 }

becomes_user : setuid root 1000 ≡ ok user
unfolding setuid
becomes_user = refl

one_session : OneSession (kernel 3 0)
unfolding process_valid
one_session j lt e = ground arith

run-OneSession_example :
    OneSession (Groups.run (kernel 3 0) ((3, setsids) ∷ (2, setpgids (pos 3) (pos 2)) ∷ []))
run-OneSession_example =
    run-OneSession ((3, setsids) ∷ (2, setpgids (pos 3) (pos 2)) ∷ []) (kernel 3 0) one_session

-- A directory of the group 100 that others may not enter.
abbrev directory : Inode
directory = record { mode = 0o040750; uid = 7; gid = 100 }

check_read_lem_example :
    check_read user directory false ≡ verdict (may_access user directory false 2)
check_read_lem_example = check_read_lem user directory false
