-- ===== src/Fs/Names/Open.antt =====
-- `tfs_open` of fs/operations.c: what it opens, and the names of the directory.
use ex.Common.{ℕ, Bool, ◌<◌, ◌≡◌, inl, inr, refl, true, false, Option, Bool-cases, if◌then◌else◌}
use ex.Common.Int.{ℤ, minus_one, ◌==ℤ◌, is_nonneg}
use ex.Fs.State.Types.{Fs}
use ex.Fs.State.Memory.{Text}
use ex.Fs.State.Monad.{Out, Returns, returns, and_then, ◌>>=◌, ◌>>◌}
use ex.Fs.State.Tables.{inode_delete}
use ex.Fs.State.Dir.{is_named, add_dir_entry}
use ex.Fs.Ops.Mutex.{Pthread, IsPosix, unlock_return, valid_pathname, skip_slash, tfs_lookup}
use ex.Fs.Ops.Open.{open_finish, open_existing, open_new, open_path, tfs_open, creates}
use ex.Fs.Valid.{IsValid, entries_of}
use ex.Fs.Safe.Finish.{IsValid-locked, unlock_return-done}
use ex.Fs.Names.{same_data-SameNames}
use ex.Common.{if◌then◌else◌}
use ex.Fs.Names.{find_in_dir-absent, find_in_dir-present}
use ex.Fs.Names.Existing.{Opened, refused, no_create, no_inode, open_existing-Opened}
use ex.Fs.Valid.Create.{
  Created, all_taken, created, inode_create-Created, created-IsValid, created-InUse,
  created-unnamed, free_inode, empty_file,
}
use ex.Fs.Valid.Create
use ex.Fs.Valid.Tight.{Lossless-locked}
use ex.Fs.Valid.Search.{root-inode_get, Lookup, absent, present, find_in_dir-Lookup}
use ex.Fs.Safe.Finish.{with_lock-done, IsString, skip_slash_lem}
use ex.Fs.Names.New.{enter-Opened}

module _ {pt : Pthread} (posix : IsPosix pt) where
  module _ {s : Fs} (v : IsValid s) (b : Bool) (name : Option Text) (mode : ℕ)
      (text : IsString name) (valid : valid_pathname name ≡ true) where
    nm : Text
    nm = skip_slash name

    vb : IsValid (record s { locked = b })
    vb = IsValid-locked b v

    open_new-Opened :
        ((e : ℕ) → e < entries_of s.fs_params → is_named 0 (skip_slash name) s.fs_data e ≡ false)
        → creates mode ≡ true
        → Returns (Opened s (skip_slash name) mode) (open_new pt name 0 (record s { locked = b }))
    unfolding open_new
    open_new-Opened name_new creating = go (inode_create-Created _ v.params.inodes_int)
      where
        go :
            {r : Out ℤ}
            → Created (record s { locked = b }) r
            → Returns (Opened s (skip_slash name) mode) (
                and_then r (λ inum.
                  if inum ==ℤ minus_one
                  then unlock_return pt minus_one
                  else (add_dir_entry 0 (skip_slash name) inum >>= λ added.
                      if added ==ℤ minus_one
                      then (inode_delete inum >> unlock_return pt minus_one)
                      else open_finish pt inum 0)))
        go (all_taken h) = rw (unlock_return-done posix minus_one (record s { locked = b })) (
            returns (
              refused (find_in_dir-absent v (skip_slash name) name_new)
                (same_data-SameNames v (IsValid-locked _ vb) refl refl) (λ j u. refl)
                (Lossless-locked s _) (refl, refl) (no_inode h)))
        go (Create.made i first) =
            let (text', long) = skip_slash_lem name text valid in
            enter-Opened posix v b (skip_slash name) mode text' long name_new creating i first

    open_path-Opened :
        Returns (Opened s (skip_slash name) mode) (open_path pt name mode (record s { locked = b }))
    unfolding open_path tfs_lookup
    open_path-Opened = rw (root-inode_get vb, valid) (go (find_in_dir-Lookup vb (skip_slash name)))
      where
        go :
            {r : Out ℤ}
            → Lookup vb (skip_slash name) r
            → Returns (Opened s (skip_slash name) mode) (
                and_then r (λ inum.
                  if is_nonneg inum
                  then open_existing pt inum mode
                  else if creates mode
                  then open_new pt name 0
                  else unlock_return pt minus_one))
        go (absent h) = elim (Bool-cases (creates mode)) [
          | inl e ↦ rw e (open_new-Opened h e)
          | inr e ↦
              rw (e, unlock_return-done posix minus_one (record s { locked = b }))
                (returns (
                  refused (find_in_dir-absent v (skip_slash name) h)
                    (same_data-SameNames v (IsValid-locked _ vb) refl refl) (λ j u. refl)
                    (Lossless-locked s _) (refl, refl) (no_create e)))
        ]
        go (present e k f q u) =
            open_existing-Opened posix v b (skip_slash name) mode k u
              (find_in_dir-present v (skip_slash name) f q)

  -- In a well-formed state, with mutex calls that do not return -1, `tfs_open` of a valid path name
  -- returns, and no file in use changes but for one that is truncated. If `find_in_dir` finds the
  -- name, the handle is for the inode it has, every name stays as it was, the file is empty with
  -- TFS_O_TRUNC and has its size and bytes without it, and the handle's offset is that size with
  -- TFS_O_APPEND and 0 without it. If it does not, then either an inode of size 0 is created (with
  -- TFS_O_CREAT), `find_in_dir` finds it under the name and every other name as before, and the
  -- handle's offset is 0; or the result is -1, every name stays as it was, and there is a reason: no
  -- TFS_O_CREAT, no free inode, no unused entry, or a name of more than 39 bytes.
  -- The handle is the first free entry of the table of open files, or -1 if there is none, and the
  -- other entries stay. The parameters stay, and if every block that is taken was the root
  -- directory's or a file's, it still is.
  pub tfs_open-Opened :
      (name : Option Text) (mode : ℕ) (s : Fs)
      → IsValid s
      → IsString name
      → valid_pathname name ≡ true
      → Returns (Opened s (skip_slash name) mode) (tfs_open pt name mode s)
  unfolding tfs_open
  tfs_open-Opened name mode s v text valid =
      rw (with_lock-done posix _ s, valid) (open_path-Opened v _ name mode text valid)
