-- ===== src/Fs/Safe.antt =====
-- The operations of fs/operations.c, called in a well-formed state.
pub mod Finish
pub mod Existing
pub mod Open
pub mod Close
pub mod Clip
pub mod Block
pub mod Room
pub mod Write
pub mod Read
pub mod Label
pub mod Init
pub mod Reinit
