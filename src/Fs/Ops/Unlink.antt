-- ===== src/Fs/Ops/Unlink.antt =====
-- fs/operations.c: `tfs_unlink`.
use ex.Common.{Option, if◌then◌else◌}
use ex.Common.Int.{ℤ, pos, minus_one, ◌==ℤ◌}
use ex.Fs.State.Types.{root_dir_inum}
use ex.Fs.State.Memory.{Text}
use ex.Fs.State.Monad.{M, ◌>>=◌, ◌>>◌}
use ex.Fs.State.Tables.{inode_get, inode_delete}
use ex.Fs.State.Dir.{clear_dir_entry}
use ex.Fs.Ops.Mutex.{Pthread, with_lock, unlock_return, valid_pathname, skip_slash, tfs_lookup}

-- `tfs_unlink` behind the check of the path name.
unfoldable pub unlink_path : Pthread → Option Text → M ℤ
unlink_path pt target = do
  root_dir_inode ← inode_get (pos root_dir_inum)
  inum ← tfs_lookup target root_dir_inode
  if inum ==ℤ minus_one then unlock_return pt minus_one else (do
    inode_delete inum
    cleared ← clear_dir_entry root_dir_inode (skip_slash target)
    if cleared ==ℤ minus_one then unlock_return pt minus_one else unlock_return pt (pos 0))

unfoldable pub tfs_unlink : Pthread → Option Text → M ℤ
tfs_unlink pt target =
    with_lock pt
      (if valid_pathname target then unlink_path pt target else unlock_return pt minus_one)
