-- ===== src/Fs/Ops/Open.antt =====
-- fs/operations.c: `tfs_open` and `tfs_close`.
use ex.Common.{ℕ, ◌/◌, ◌%◌, Bool, Option, none, some, ltb, ◌==◌, if◌then◌else◌}
use ex.Common.Int.{ℤ, pos, minus_one, ◌==ℤ◌, is_nonneg}
use ex.Fs.State.Types.{t_file, root_dir_inum}
use ex.Fs.State.Memory.{Text}
use ex.Fs.State.Monad.{M, pure, ◌>>=◌, ◌>>◌, get, modify}
use ex.Fs.State.Tables.{
  inode_create, inode_delete, inode_get, data_block_free, add_to_open_file_table, set_inode,
  remove_from_open_file_table, get_open_file_entry,
}
use ex.Fs.State.Dir.{add_dir_entry}
use ex.Fs.Ops.Mutex.{Pthread, with_lock, unlock_return, valid_pathname, skip_slash, tfs_lookup}

-- `mode & TFS_O_CREAT`, `mode & TFS_O_TRUNC`, `mode & TFS_O_APPEND`
abbrev pub creates : ℕ → Bool
creates mode = mode % 2 == 1

abbrev pub truncates : ℕ → Bool
truncates mode = mode / 2 % 2 == 1

abbrev pub appends : ℕ → Bool
appends mode = mode / 4 % 2 == 1

-- The last part of `tfs_open`.
unfoldable pub open_finish : Pthread → ℤ → ℕ → M ℤ
open_finish pt inum offset = do ret ← add_to_open_file_table inum offset; unlock_return pt ret

unfoldable pub truncate_inode : ℕ → M (Unit {0})
truncate_inode inode = do
  s ← get
  if ltb 0 (s.inode_table inode).i_size
      then (do
        data_block_free (s.inode_table inode).i_data_block
        modify (set_inode inode (λ n. record n { i_size = 0 })))
      else pure tt

-- The branch for a file that exists.
unfoldable pub open_existing : Pthread → ℤ → ℕ → M ℤ
open_existing pt inum mode = do
  inode ← inode_get inum
  (if truncates mode then truncate_inode inode else pure tt)
  s ← get
  open_finish pt inum (if appends mode then (s.inode_table inode).i_size else 0)

-- The branch that creates the file.
unfoldable pub open_new : Pthread → Option Text → ℕ → M ℤ
open_new pt name root_dir_inode = do
  inum ← inode_create t_file
  if inum ==ℤ minus_one then unlock_return pt minus_one else (do
    added ← add_dir_entry root_dir_inode (skip_slash name) inum
    if added ==ℤ minus_one
        then (do inode_delete inum; unlock_return pt minus_one)
        else open_finish pt inum 0)

-- `tfs_open` behind the check of the path name.
unfoldable pub open_path : Pthread → Option Text → ℕ → M ℤ
open_path pt name mode = do
  root_dir_inode ← inode_get (pos root_dir_inum)
  inum ← tfs_lookup name root_dir_inode
  if is_nonneg inum
      then open_existing pt inum mode
      else if creates mode
      then open_new pt name root_dir_inode
      else unlock_return pt minus_one

unfoldable pub tfs_open : Pthread → Option Text → ℕ → M ℤ
tfs_open pt name mode =
    with_lock pt
      (if valid_pathname name then open_path pt name mode else unlock_return pt minus_one)

unfoldable pub close_entry : Pthread → ℤ → Option ℕ → M ℤ
close_entry pt fhandle none = unlock_return pt minus_one
close_entry pt fhandle (some file) = do
  remove_from_open_file_table fhandle
  unlock_return pt (pos 0)

unfoldable pub tfs_close : Pthread → ℤ → M ℤ
tfs_close pt fhandle =
    with_lock pt (do s ← get; close_entry pt fhandle (get_open_file_entry s fhandle))
