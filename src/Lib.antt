-- ===== src/Lib.antt =====
-- os0-kernel: a verification of the core of the OS/0 kernel.
--
-- The program. OS/0 is a Unix-like kernel for i386, in C. libk/ is its C library: arrays, sorted
-- arrays, stacks, signal sets, strings, character classes, bit searches, numbers from and to
-- text, and checksums. kernel/memory.c hands out physical pages, which it keeps in a libk stack
-- once they are freed. kernel/process.c has the process table, the system's table of open files
-- and the delivery of signals; kernel/fcntl.c and kernel/wait.c work on the same tables, and so
-- do the system calls of uapi/id.c and uapi/signal.c. fs/ has the file systems, of which
-- permissions (fs/perm.c), pipes (fs/pipe.c) and the resolution of names in paths (fs/path.c)
-- are modelled here; a pipe sends SIGPIPE through kernel/process.c, and permissions ask for the
-- ids of the caller, which uapi/id.c sets. Of drivers/ the terminal is modelled: the keyboard
-- gives characters to the line discipline of drivers/tty-line.c, which edits an input buffer,
-- signals processes, and shows the characters through drivers/vt100.c and drivers/vga.c;
-- processes read and write the terminal.
--
-- How the model corresponds to the code.
-- Prelude: names of the libraries, Boolean tests on native numbers, lists with a C array's
--   accesses, error numbers and results. Bits: the bits of a word, with `&`, `|` and `~` on them.
-- Libk.Array, Libk.SortedArray (libk/array.c, include/libk/array.h): the struct as a record whose
--   buffer is a list; an access outside the buffer is `none`. Loops count their rounds.
-- Libk.Stack (libk/stack.c), Libk.SigSet (libk/signal.c), Libk.Strings (libk/string.c), Libk.Ctype
--   (libk/ctype.c), Libk.BitSearch (libk/bitsearch.c), Libk.Numbers (libk/atoi.c), Libk.Spell
--   (libk/itoa.c), Libk.Crc (libk/crc16.c). A string is the list of the bytes from the pointer to
--   the end of what may be read; reading on is `none`.
-- Memory (kernel/memory.c): the static variables as a record; Memory.Machine adds the pages that
--   the rest of the kernel holds.
-- Process.State: the structs of include/sys/process.h, split by concern, and the kernel's
--   variables.
-- Process.Signal (`process_send_signal`, `process_handle_signal`, `process_signal_handled`),
--   Process.Files (`process_alloc_fd`, `process_free_fd`, kernel/fcntl.c), Process.Ids
--   (uapi/id.c), Process.SignalCalls (uapi/signal.c), Process.Wait (kernel/wait.c): one function
--   for each of the code's, from a state to a result and a state.
-- Fs.Perm (fs/perm.c), Fs.Pipe (fs/pipe.c) and Fs.Path (`vfs_path_resolve` of fs/path.c).
-- Drivers.Vga (drivers/vga.c): the screen and the hardware's memory as functions of the index.
--   Drivers.Vt100 (drivers/vt100.c): the state of an escape sequence and its numbers. Drivers.Input
--   and Drivers.Tty (drivers/tty-line.c): the input buffer and its editing, and the line discipline
--   over an interface `Emulator`, for which theorems ask the laws `Keeps`; Drivers.Tty.Calls has
--   `tty_read` and `tty_write`. Drivers.Keyboard (drivers/kbd.c) has the maps of the keys and the
--   keys that are down. Drivers.Console fills the interface with the VT100, as
--   `default_tty` does. An index outside a buffer is `none`.
-- Tests: the theorems at concrete inputs.
--
-- Bounds and fuel. Words of w bits are native numbers with their wrap-around written out. The
-- recursion of `process_send_signal` has fuel, of which two levels are enough, since the SIGCHLD
-- for a parent is sent on to nobody. The walk to the parents in `wait_get_status` has fuel, of
-- which the depth of the tree of processes and two rounds more are enough. The digits of a word
-- take 33 rounds at most. All other recursion is structural. PROCESS_FILE_LIMIT,
-- PROCESS_SYS_FILE_LIMIT and PROCESS_LIMIT are parameters.
--
-- What is not modelled. `task_yield` is a parameter. Waiting, in pipes, in `wait4` and in
-- `tty_read`, is polling: what happens between two rounds is a step of another process. The
-- siginfo page of a signal is kept as the value that it holds. The results of `kmalloc` are
-- arguments. The calls that the line discipline makes of `process_send_signal` are kept as a
-- list. The other drivers, paging and task switches of arch/i386, the heap of kernel/heap.c, the
-- linker of kernel/rtld.c, process creation, the virtual file system, ext2 and the calls on
-- files and memory are left out: they work on hardware, on disk layouts or on mapped images.
-- libk/qsort.c, libk/sha256.c, fs/ext2 and include/elf.h come from other projects.
pub mod Prelude
pub mod Bits
pub mod Libk
pub mod Memory
pub mod Process
pub mod Fs
pub mod Drivers
mod Tests
