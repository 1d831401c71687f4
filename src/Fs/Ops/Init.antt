-- ===== src/Fs/Ops/Init.antt =====
-- fs/operations.c: `tfs_default_params`, `tfs_init` and `tfs_destroy`.
use ex.Common.{Option, none, some, not, if◌then◌else◌}
use ex.Common.Int.{ℤ, pos, minus_one, ◌==ℤ◌}
use ex.Fs.State.Types.{TfsParams, t_directory, root_dir_inum}
use ex.Fs.State.Monad.{M, pure, ◌>>=◌}
use ex.Fs.State.Tables.{inode_create}
use ex.Fs.State.Setup.{Malloc, state_init, state_destroy}

abbrev pub tfs_default_params : TfsParams
tfs_default_params = record {
  max_inode_count = 64;
  max_block_count = 1024;
  max_open_files_count = 16;
  block_size = 1024;
}

-- `none` stands for NULL.
abbrev pub choose_params : Option TfsParams → TfsParams
choose_params none = tfs_default_params
choose_params (some params) = params

unfoldable pub tfs_init : Malloc → Option TfsParams → M ℤ
tfs_init heap params_ptr = do
  started ← state_init heap (choose_params params_ptr)
  if not (started ==ℤ pos 0) then pure minus_one else (do
    root ← inode_create t_directory
    if not (root ==ℤ pos root_dir_inum) then pure minus_one else pure (pos 0))

unfoldable pub tfs_destroy : M ℤ
tfs_destroy = do r ← state_destroy; if not (r ==ℤ pos 0) then pure minus_one else pure (pos 0)
