-- ===== src/Fs/Tests/Maps.antt =====
-- The steps on the map of the small file system of Fs/Tests.
use ex.Common.{◌≡◌, refl, [], ◌∷◌, arith}
use ex.Common.Int.{pos}
use ex.Fs.State.Monad.{Returns, done}
use ex.Fs.State.Dir.{find_in_dir}
use ex.Fs.Ops.Mutex.{working}
use ex.Fs.Ops.Open.{tfs_open}
use ex.Fs.Ops.Unlink.{tfs_unlink}
use ex.Fs.Ops.Transfer.{tfs_write}
use ex.Fs.View.{view, Step, open_file, unlink_file, write_file}
use ex.Fs.View.Refine.{tfs_open-Step, tfs_unlink-Step, tfs_write-Step}
use ex.Fs.Safe.Read.{inode_of}
use ex.Fs.Tests.{
  path, greeting, mounted, opened, posix, mounted-IsValid, opened-IsValid, scenario,
  opened-block_size, opened-IsWithin,
}
use ex.Fs.Tests.Files.{path-valid, opened-limits, opened-taken}

tfs_open-Step_example :
    Returns
      (λ r t. Step mounted.fs_params.block_size (view mounted) (view t) (open_file (b'a' ∷ []) 1) r)
      (tfs_open working path 1 mounted)
tfs_open-Step_example = tfs_open-Step posix path 1 mounted mounted-IsValid (omega arith) path-valid

tfs_unlink-Step_example :
    Returns
      (λ r t. Step opened.fs_params.block_size (view opened) (view t) (unlink_file (b'a' ∷ [])) r)
      (tfs_unlink working path opened)
tfs_unlink-Step_example = tfs_unlink-Step posix path opened opened-IsValid (omega arith) path-valid

opened-name : find_in_dir 0 (b'a' ∷ []) opened ≡ done (pos (inode_of opened 0)) opened
unfolding scenario
opened-name = refl

tfs_write-Step_example :
    Returns
      (λ r t.
        Step opened.fs_params.block_size
          (view opened)
          (view t)
          (write_file (b'a' ∷ []) (opened.open_file_table 0).of_offset 2 greeting)
          r)
      (tfs_write working (pos 0) greeting 2 opened)
tfs_write-Step_example =
    tfs_write-Step posix (b'a' ∷ []) 0 2 greeting opened opened-IsValid (omega arith) opened-name
      (omega (arith, opened-limits)) opened-taken.0 (opened-IsWithin 0 refl) (omega arith)
      (omega (arith, opened-block_size))
