-- ===== src/Fs/Content.antt =====
-- The files of fs/ as lists of bytes: what `tfs_read` returns of them, and what `tfs_write` makes of
-- them.
pub mod Bytes
pub mod Read
pub mod Splice
pub mod Write
pub mod Keep
pub mod Frame
pub mod Again
pub mod Still
pub mod Close
pub mod Owned
use ex.Common.{ℕ, ◌*◌, List}
use ex.Fs.State.Types.{Fs}
use ex.Fs.State.Memory.{read_bytes}
use ex.Fs.Valid.{block_no}

-- The address of the first byte of a file.
abbrev pub start_of : Fs → ℕ → ℕ
start_of s k = block_no (s.inode_table k) * s.fs_params.block_size

-- The bytes of a file.
abbrev pub content : Fs → ℕ → List ℕ
content s k = read_bytes s.fs_data (start_of s k) (s.inode_table k).i_size
