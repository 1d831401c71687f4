-- ===== src/Fs/Names/Unlink.antt =====
-- `tfs_unlink` of fs/operations.c and the names of the directory.
use ex.Common.{ℕ, ◌≡◌, refl, true, Option, update_self, if◌then◌else◌}
use ex.Common.Int.{ℤ, pos, minus_one, ◌==ℤ◌}
use ex.Fs.State.Types.{Fs, free}
use ex.Fs.State.Memory.{Text}
use ex.Fs.State.Monad.{Out, done, Returns, returns, and_then, ◌>>=◌, ◌>>◌}
use ex.Fs.State.Tables.{inode_delete}
use ex.Fs.State.Dir.{clear_dir_entry, find_in_dir}
use ex.Fs.Ops.Mutex.{Pthread, IsPosix, unlock_return, valid_pathname, skip_slash, tfs_lookup}
use ex.Fs.Ops.Unlink.{unlink_path, tfs_unlink}
use ex.Fs.Valid.{IsValid}
use ex.Fs.Valid.Search.{root-inode_get, Lookup, absent, present, find_in_dir-Lookup}
use ex.Fs.Safe.Finish.{
  IsValid-locked, locked_by, unlocked, unlock_return-done, with_lock-done, IsString, skip_slash_lem,
}
use ex.Fs.Safe.Close.{unlink_found-done, removed, removed-IsValid}
use ex.Fs.Names.{
  IsRenamed, SameNames, IsRebound-IsRenamed, same_data-SameNames, find_in_dir-absent,
  find_in_dir-present,
}
use ex.Fs.Content.Keep.{SameFiles, SameOthers, content-same, clear_entry-SameBlocks}
use ex.Fs.Valid.Tight.{Lossless, Lossless-locked, deleted-IsTight}
use ex.Fs.Names.Handle.{SameHandles}
use ex.Fs.Names.Rebind.{clear_entry-IsRebound}

-- The value and the state that `tfs_unlink` of a name leaves behind.
pub data Unlinked (s : Fs) (nm : Text) : ℤ → Fs → Type 0 where
  -- The name had the file `k`, which is freed; the name is gone, and the other names stay.
  deleted :
      {t : Fs} (k : ℕ)
      → find_in_dir 0 nm s ≡ done (pos k) s
      → t.freeinode_ts k ≡ free
      → IsRenamed s t nm minus_one
      → SameOthers k s t
      → Lossless s t
      → SameHandles s t
      → Unlinked s nm (pos 0) t
  missing :
      {t : Fs}
      → find_in_dir 0 nm s ≡ done minus_one s
      → SameNames s t
      → SameFiles s t
      → Lossless s t
      → SameHandles s t
      → Unlinked s nm minus_one t

pub Unlinked-Lossless : {s : Fs} {nm : Text} {r : ℤ} {t : Fs} → Unlinked s nm r t → Lossless s t
Unlinked-Lossless (deleted k q free' names files lossless same) = lossless
Unlinked-Lossless (missing q names files lossless same) = lossless

module _ {pt : Pthread} (posix : IsPosix pt) where
  module _ {s : Fs} (v : IsValid s) (name : Option Text) (text : IsString name)
      (valid : valid_pathname name ≡ true) where
    vl : IsValid (locked_by pt s)
    vl = IsValid-locked _ v

    go :
        {r : Out ℤ}
        → Lookup vl (skip_slash name) r
        → Returns (Unlinked s (skip_slash name)) (
            and_then r (λ inum.
              if inum ==ℤ minus_one
              then unlock_return pt minus_one
              else (inode_delete inum
                  >> (clear_dir_entry 0 (skip_slash name) >>= λ cleared.
                      if cleared ==ℤ minus_one
                      then unlock_return pt minus_one
                      else unlock_return pt (pos 0)))))
    go (absent h) =
        let vt : IsValid (unlocked pt (locked_by pt s)) = IsValid-locked _ vl in
        rw (unlock_return-done posix minus_one (locked_by pt s)) (
          returns (
            missing (find_in_dir-absent v (skip_slash name) h) (same_data-SameNames v vt refl refl)
              (λ j w. refl) (Lossless-locked s _) (refl, refl)))
    go (present e k f q u) =
        let (text', long) = skip_slash_lem name text valid in
        let vt = IsValid-locked _ (removed-IsValid posix e k vl f.below q u) in
        rw (unlink_found-done posix (skip_slash name) e k vl text' long f u) (
          returns (
            deleted k (find_in_dir-present v (skip_slash name) f q)
              (update_self s.freeinode_ts k free)
              (IsRebound-IsRenamed v vt refl (clear_entry-IsRebound v.dir text' f))
              (λ j ne w.
                content-same (removed e k s) j v refl
                  (clear_entry-SameBlocks s.fs_params s.fs_data e f.below) refl w)
              (record { same_params = refl; no_leak = deleted-IsTight k s }) (refl, refl)))

    unlink_path-Unlinked :
        Returns (Unlinked s (skip_slash name)) (unlink_path pt name (locked_by pt s))
    unfolding unlink_path tfs_lookup
    unlink_path-Unlinked =
        rw (root-inode_get vl, valid) (go (find_in_dir-Lookup vl (skip_slash name)))

  -- In a well-formed state, with mutex calls that do not return -1, `tfs_unlink` of a valid path
  -- name returns. If `find_in_dir` finds the name, the result is 0, the inode of the file is free
  -- afterwards, `find_in_dir` no longer finds the name, and finds every other name as before, and
  -- the other files in use keep their bytes. Otherwise the result is -1, `find_in_dir` finds every
  -- name as before, and every file in use keeps its bytes. The parameters and the table of open
  -- files stay, and if every block that is taken was the root directory's or a file's, it still is.
  pub tfs_unlink-Unlinked :
      (target : Option Text) (s : Fs)
      → IsValid s
      → IsString target
      → valid_pathname target ≡ true
      → Returns (Unlinked s (skip_slash target)) (tfs_unlink pt target s)
  unfolding tfs_unlink
  tfs_unlink-Unlinked target s v text valid =
      rw (with_lock-done posix _ s, valid) (unlink_path-Unlinked v target text valid)
