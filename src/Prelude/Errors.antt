-- ===== src/Prelude/Errors.antt =====
-- Results of calls that return a negated errno of include/sys/errno.h on failure: `err e` stands
-- for the value -e, and `ok a` for success with the value `a`.
pub data Errno : Type 0 where
  eperm enoent esrch eintr eio ebadf echild enomem eacces einval enfile emfile epipe : Errno
  enosys enotsup : Errno

pub data Result {ℓ} (A : Type ℓ) : Type ℓ where
  ok : A → Result A
  err : Errno → Result A
