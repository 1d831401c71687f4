-- ===== src/Fs/Safe/Reinit.antt =====
-- `tfs_init` of fs/operations.c, on a program that has a file system already, and the next write.
use Prim.Native.Nat.{min}
use ex.Common.{ℕ, ◌+◌, ◌-◌, ◌*◌, ◌^◌, ◌<◌, ◌≡◌}
use ex.Fs.State.Types.{TfsParams, Fs, taken}
use ex.Fs.Valid.{block_no}
use ex.Fs.Safe.Read.{inode_of}

-- How many of `w` bytes fit a block of the parameters `q` behind the offset of the handle `h`.
abbrev pub room : Fs → TfsParams → (h w : ℕ) → ℕ
room s q h w = min w (q.block_size - (s.open_file_table h).of_offset)

-- A write of `w` bytes through the open handle `h` of a file with a block, whose copy ends behind the
-- memory allocated in `s` when the indices are taken with the parameters `q`.
pub record IsPast (s : Fs) (q : TfsParams) (h w : ℕ) : Type 0 where
  pub handle : h < s.fs_params.max_open_files_count
  pub handle_new : h < q.max_open_files_count
  pub is_taken : s.free_open_file_entries h ≡ taken
  pub inode_new : inode_of s h < q.max_inode_count
  pub some_bytes : 0 < (s.inode_table (inode_of s h)).i_size
  pub block_new : block_no (s.inode_table (inode_of s h)) < q.max_block_count
  pub some_room : 0 < room s q h w
  pub small : w + q.block_size < 2 ^ 64
  pub past :
      s.fs_params.max_block_count * s.fs_params.block_size
      < block_no (s.inode_table (inode_of s h)) * q.block_size
        + (s.open_file_table h).of_offset
        + room s q h w
