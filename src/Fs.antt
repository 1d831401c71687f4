-- ===== src/Fs.antt =====
-- The file system of projeto-so-2022-23/fs: the state layer (state.c) and the operations (operations.c).
pub mod State
pub mod Ops
pub mod Valid
pub mod Names
pub mod Content
pub mod Safe
pub mod View
pub mod Trace
mod Tests
