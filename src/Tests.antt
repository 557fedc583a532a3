-- ===== src/Tests.antt =====
-- Runs of the definitions at concrete inputs, and concrete instances of the theorems: a map, a
-- daemon and a filesystem to run them on.
mod Answers
mod Client
mod Handlers
mod Paths
pub mod Network
mod Runs
pub mod Kernel
mod Sessions
mod Streams
pub mod Recovery
pub mod Setting
