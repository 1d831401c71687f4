-- ===== src/Fs/State.antt =====
-- projeto-so-2022-23/fs/state.c, the state layer: its data, its memory, and its functions.
pub mod Types
pub mod Memory
pub mod Monad
pub mod Tables
pub mod Dir
pub mod Setup
