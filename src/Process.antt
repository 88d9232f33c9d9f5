-- ===== src/Process.antt =====
-- The process table and what works on it: kernel/process.c, kernel/fcntl.c, kernel/wait.c,
-- uapi/signal.c and uapi/id.c.
pub mod State
pub mod Signal
pub mod Files
pub mod Ids
pub mod SignalCalls
pub mod Wait
