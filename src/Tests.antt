-- ===== src/Tests.antt =====
-- The theorems at concrete inputs.
mod Containers
mod Texts
mod Pages
mod Processes
mod Signals
mod Descriptors
mod Users
mod Pipes
mod Waits
mod Terminals
mod Typing
mod Paths
mod Keys
