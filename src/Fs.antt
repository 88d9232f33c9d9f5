-- ===== src/Fs.antt =====
-- Of the file systems in fs/: permissions, pipes and paths.
pub mod Perm
pub mod Pipe
pub mod Path
