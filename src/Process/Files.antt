-- ===== src/Process/Files.antt =====
-- File descriptors: `process_alloc_fd` and `process_free_fd` of kernel/process.c, kernel/fcntl.c.
pub mod Search
pub mod Counts
pub mod System
pub mod Answers
use os0_kernel.Prelude.{
  ℕ, zero, suc, ◌+◌, ◌-◌, Bool, true, false, Option, none, some, ltb, leb, ◌==◌, ◌||◌,
  if◌then◌else◌, is_none, Result, ok, err, enfile, emfile, ebadf, einval,
}
use os0_kernel.Prelude.Int.{ℤ, pos, negsuc}
use os0_kernel.Process.State.{Descriptors}

-- `ProcessFile`; the inode and the path are pointers, `none` for NULL.
pub record File : Type 0 where
  pub inode : Option ℕ
  pub path : Option ℕ
  pub mode : ℕ
  pub offset : ℕ
  pub refcnt : ℕ

-- `process_fd_table` and `process_fd_next`.
pub record Files : Type 0 where
  pub table : ℕ → File
  pub next : ℕ

-- PROCESS_SYS_FILE_LIMIT and PROCESS_FILE_LIMIT of the build.
pub record Limits : Type 0 where
  pub sys_file_limit : ℕ
  pub file_limit : ℕ

abbrev pub with_file : Files → ℕ → File → Files
with_file s f x = record s { table = λ j. if j == f then x else s.table j }

abbrev pub with_fd : Descriptors → ℕ → Option ℕ → Descriptors
with_fd d fd o = record d { files = λ j. if j == fd then o else d.files j }

abbrev pub with_fdflags : Descriptors → ℕ → ℕ → Descriptors
with_fdflags d fd v = record d { fdflags = λ j. if j == fd then v else d.fdflags j }

-- The first unused file among `n` from index `i` on.
unfoldable pub find_file : (ℕ → File) → ℕ → ℕ → Option ℕ
find_file table zero i = none
find_file table (suc n) i =
    let rest = find_file table n (suc i) in if (table i).refcnt == 0 then some i else rest

-- The first unused descriptor among `n` from `fd` on.
unfoldable pub find_fd : (ℕ → Option ℕ) → ℕ → ℕ → Option ℕ
find_fd files zero fd = none
find_fd files (suc n) fd =
    let rest = find_fd files n (suc fd) in if is_none (files fd) then some fd else rest

-- The search for a descriptor in `process_alloc_fd`, from one that is at most the limit.
abbrev pub alloc_below : Limits → Files → Descriptors → ℕ → ℕ → Result ℕ × Files × Descriptors
alloc_below l s d fd f = elim (find_fd d.files (l.file_limit - fd) fd) [
  | none ↦ (err emfile, s, d)
  | some nfd ↦ (
    ok nfd,
    record (with_file s f (record (s.table f) { refcnt = 1 })) { next = f + 1 },
    with_fd d nfd (some f),
  )
]

-- `process_alloc_fd`, once a file is found. `none` is a write outside `p_files`: the search is
-- found to have failed only where it stops at the limit, and from beyond it takes the first
-- descriptor.
abbrev pub alloc_file :
    Limits → Files → Descriptors → ℕ → ℕ → Option (Result ℕ × Files × Descriptors)
alloc_file l s d fd f = if ltb l.file_limit fd then none else some (alloc_below l s d fd f)

-- `process_alloc_fd`
unfoldable pub alloc_fd : Limits → Files → Descriptors → ℕ → Option (Result ℕ × Files × Descriptors)
alloc_fd l s d fd = elim (find_file s.table (l.sys_file_limit - s.next) s.next) [
  | none ↦ some (err enfile, s, d)
  | some f ↦ alloc_file l s d fd f
]

-- A file whose last reference is gone.
abbrev pub cleared : File → File
cleared x = record x { inode = none; path = none; mode = 0; offset = 0; refcnt = 0 }

-- `process_free_fd` on an open descriptor; a count that falls to 0 clears the file. The counts of
-- open files are not 0, so the subtraction is exact.
abbrev pub dropped : File → File
dropped x = if x.refcnt == 1 then cleared x else record x { refcnt = x.refcnt - 1 }

abbrev pub release : Files → ℕ → Files
release s f = record (with_file s f (dropped (s.table f))) {
  next = if ltb f s.next then f else s.next;
}

-- `process_free_fd`. With the result comes the file whose inode is unreferenced and whose path is
-- freed, if its last reference went.
unfoldable pub free_fd : Files → Descriptors → ℕ → Result ℕ × Option File × Files × Descriptors
free_fd s d fd = elim (d.files fd) [
  | none ↦ (err ebadf, none, s, d)
  | some f ↦ (
    ok 0,
    if (s.table f).refcnt == 1 then some (s.table f) else none,
    release s f,
    with_fd d fd none,
  )
]

-- One reference more to a file.
abbrev pub retain : Files → ℕ → Files
retain s f = with_file s f (record (s.table f) { refcnt = (s.table f).refcnt + 1 })

-- `fcntl_dupfd` on the open descriptor `fd` of the file `f`.
pub dupfd : Limits → Files → Descriptors → ℕ → ℕ → ℤ → Bool → Result ℕ × Files × Descriptors
dupfd l s d fd f (negsuc arg) cloexec = (err einval, s, d)
dupfd l s d fd f (pos arg) cloexec =
    if leb l.file_limit arg
    then (err einval, s, d)
    else if fd == arg
    then (ok fd, s, d)
    else elim (find_fd d.files (l.file_limit - arg) arg) [
      | none ↦ (err emfile, s, d)
      | some nfd ↦
          (ok nfd, retain s f, with_fdflags (with_fd d nfd (some f)) nfd (if cloexec then 1 else 0))
    ]

pub data Command : Type 0 where
  f_dupfd f_dupfd_cloexec f_getfd f_setfd f_getfl f_setfl other : Command

-- The `switch` of `fcntl`, for the open descriptor `fd` of the file `f`. The argument is an `int`;
-- flags and modes are kept as `raw arg`, its bits.
unfoldable pub fcntl_open :
    (ℤ → ℕ) → Limits → Files → Descriptors → ℕ → ℕ → Command → ℤ → Result ℕ × Files × Descriptors
fcntl_open raw l s d fd f f_dupfd arg = dupfd l s d fd f arg false
fcntl_open raw l s d fd f f_dupfd_cloexec arg = dupfd l s d fd f arg true
fcntl_open raw l s d fd f f_getfd arg = (ok (d.fdflags fd), s, d)
fcntl_open raw l s d fd f f_setfd arg = (ok 0, s, with_fdflags d fd (raw arg))
fcntl_open raw l s d fd f f_getfl arg = (ok (s.table f).mode, s, d)
fcntl_open raw l s d fd f f_setfl arg =
    (ok 0, with_file s f (record (s.table f) { mode = raw arg }), d)
fcntl_open raw l s d fd f other arg = (err einval, s, d)

-- `fcntl`
unfoldable pub fcntl :
    (ℤ → ℕ) → Limits → Files → Descriptors → ℤ → Command → ℤ → Result ℕ × Files × Descriptors
fcntl raw l s d (negsuc fd) cmd arg = (err ebadf, s, d)
fcntl raw l s d (pos fd) cmd arg =
    if leb l.file_limit fd
    then (err ebadf, s, d)
    else elim (d.files fd) [ none ↦ (err ebadf, s, d) | some f ↦ fcntl_open raw l s d fd f cmd arg ]
