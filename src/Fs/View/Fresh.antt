-- ===== src/Fs/View/Fresh.antt =====
-- `tfs_init` of fs/operations.c, also behind `tfs_destroy`: the map of the new file system is empty.
use ex.Common.{ℕ, ◌<◌, ◌≡◌, ◌≢◌, inl, inr, refl, ap, true, Bool-cases, Option, none}
use ex.Common.Int.{ℤ, pos}
use ex.Fs.State.Types.{Fs, TfsParams, free}
use ex.Fs.State.Memory.{Text}
use ex.Fs.State.Monad
use ex.Fs.State.Monad.{M, done, Returns, returns, pure, ◌>>=◌}
use ex.Fs.State.Setup.{Malloc, all_ok, state_destroy}
use ex.Fs.State.Dir.{is_named}
use ex.Fs.Ops.Init.{tfs_init, tfs_destroy, choose_params}
use ex.Fs.Valid.{IsValid, InUse}
use ex.Fs.Valid.Dir.{named_used}
use ex.Fs.Safe.Init.{IsUsable, IsEmpty, tfs_init-IsEmpty}
use ex.Fs.Names.{find_in_dir-absent}
use ex.Fs.View.{view, file_of}

-- The file system is well-formed, its map is empty, no inode and no block but those of the root
-- directory is in use, and no handle is open.
pub record IsFresh (t : Fs) : Type 0 where
  pub valid : IsValid t
  pub no_names : (x : Text) → view t x ≡ none
  pub no_files : (i : ℕ) → ¬ InUse t.fs_params t.freeinode_ts i
  pub no_handles :
      (h : ℕ) → h < t.fs_params.max_open_files_count → t.free_open_file_entries h ≡ free
  pub no_blocks : (b : ℕ) → b < t.fs_params.max_block_count → b ≢ 0 → t.free_blocks b ≡ free

IsEmpty-IsFresh : {t : Fs} → IsEmpty t → IsFresh t
IsEmpty-IsFresh {t} e = record {
  valid = e.valid;
  no_names = λ x. ap file_of (
      find_in_dir-absent e.valid x (λ i lt. elim (Bool-cases (is_named 0 x t.fs_data i)) [
        | inl named ↦ absurd (named_used x t.fs_data i named (e.entries i lt))
        | inr other ↦ other
      ]));
  no_files = e.no_files;
  no_handles = e.handles;
  no_blocks = e.blocks;
}

-- `tfs_destroy`, and `tfs_init` again.
abbrev pub restart : Malloc → Option TfsParams → M (ℤ × ℤ)
restart heap given = do
  destroyed ← tfs_destroy
  started ← tfs_init heap given
  pure (destroyed, started)

module _ (heap : Malloc) (p : TfsParams) (u : IsUsable p) (given : Option TfsParams)
    (chosen : choose_params given ≡ p) (ok : all_ok heap ≡ true) where
  -- On a program without a file system, if malloc succeeds for every table and the parameters allow a
  -- root directory and indices that fit an int, `tfs_init` returns 0 and leaves a well-formed file
  -- system, for which the search of `find_in_dir` finds no name, no inode but the root directory's is
  -- in use, no handle is open, and no block but the root directory's is taken.
  pub tfs_init-IsFresh :
      (s : Fs)
      → s.allocated ≡ none
      → Returns (λ r t. (r ≡ pos 0) × IsFresh t) (tfs_init heap given s)
  tfs_init-IsFresh s fresh =
      Monad.mono (tfs_init-IsEmpty heap p u s given chosen fresh ok)
        (λ r t (z, e). (z, IsEmpty-IsFresh e))

  -- From any state, if malloc succeeds for every table and the parameters allow a root directory and
  -- indices that fit an int, `tfs_destroy` and then `tfs_init` both return 0, and leave a well-formed
  -- file system, for which the search of `find_in_dir` finds no name, no inode but the root directory's
  -- is in use, no handle is open, and no block but the root directory's is taken.
  pub restart-IsFresh :
      (s : Fs) → Returns (λ r t. (r.0 ≡ pos 0) × (r.1 ≡ pos 0) × IsFresh t) (restart heap given s)
  unfolding tfs_destroy state_destroy
  restart-IsFresh s =
      Monad.bind (tfs_init-IsFresh (record s { allocated = none }) refl)
        (λ r t (z, e). returns (refl, z, e))
