-- ===== src/Fs/Safe/Open.antt =====
-- `tfs_open` in a well-formed state.
use ex.Common.{
  ℕ, ◌<◌, ◌≤◌, ◌≡◌, ◌≢◌, inl, inr, true, false, Option, Option-cases, length, arith, Bool-cases,
  if◌then◌else◌,
}
use native.Mathlib.Decide.{dec_le}
use ex.Common.Int.{ℤ, pos, minus_one, ◌==ℤ◌, is_nonneg}
use ex.Common.First.{first_index, IsFirst, first_index-eq_some}
use ex.Fs.State.Types.{Fs}
use ex.Fs.State.Memory.{Text, IsText}
use ex.Fs.State.Monad.{M, Out, Returns, and_then, ◌>>=◌, ◌>>◌}
use ex.Fs.State.Tables.{inode_delete}
use ex.Fs.State.Dir.{is_unused, is_named, fill_entry, add_dir_entry}
use ex.Fs.Ops.Mutex.{Pthread, IsPosix, unlock_return, valid_pathname, skip_slash, tfs_lookup}
use ex.Fs.Ops.Open.{open_finish, open_existing, open_new, open_path, tfs_open, creates}
use ex.Fs.Valid.{IsValid, InUse, entry_inumber, entries_of}
use ex.Fs.Valid.Create.{
  Created, all_taken, made, created, inode_create-Created, created-IsValid, created-InUse,
  created-unnamed, free_inode,
}
use ex.Fs.Valid.Delete.{inode_delete-done, deleted-IsValid}
use ex.Fs.Valid.Dir.{DirOk-free}
use ex.Fs.Valid.Fill.{IsNew, DirOk-fill}
use ex.Fs.Valid.Search.{
  root-inode_get, Lookup, absent, present, find_in_dir-Lookup, add_dir_entry-done,
  add_dir_entry-long,
}
use ex.Fs.Safe.Finish.{
  Finished, IsValid-locked, unlock_return-Finished, with_lock-done, IsString, skip_slash_lem,
}
use ex.Fs.Safe.Existing.{open_finish-Finished, open_existing-Finished}

-- `tfs_open` behind the call of `add_dir_entry` for inode `i`.
abbrev pub after_add : Pthread → ℕ → ℤ → M ℤ
after_add pt i added =
    if added ==ℤ minus_one
    then (inode_delete (pos i) >> unlock_return pt minus_one)
    else open_finish pt (pos i) 0

module _ {pt : Pthread} (posix : IsPosix pt) where
  -- A file that could not be entered in the directory is deleted again.
  undo-Finished :
      {s : Fs} (i : ℕ)
      → IsValid s
      → InUse s.fs_params s.freeinode_ts i
      → ((e : ℕ) → e < entries_of s.fs_params → entry_inumber s.fs_data e ≢ pos i)
      → Returns
          (λ _ t. Finished pt t)
          (and_then (inode_delete (pos i) s) (λ _. unlock_return pt minus_one))
  undo-Finished {s} i v u unnamed = rw (inode_delete-done v u) (
      unlock_return-Finished posix minus_one
        (deleted-IsValid v u s.fs_data (DirOk-free v.dir i unnamed)))

  module _ {s : Fs} (nm : Text) (v : IsValid s) (text : IsText nm) (some_name : 0 < length nm)
      (name_new : (e : ℕ) → e < entries_of s.fs_params → is_named 0 nm s.fs_data e ≡ false) (i : ℕ)
      (first : IsFirst (free_inode s) s.fs_params.max_inode_count i) where
    pub filled-IsNew :
        (e : ℕ)
        → IsFirst (is_unused 0 s.fs_data) (entries_of s.fs_params) e
        → length nm ≤ 39
        → IsNew s.fs_params (created i s).freeinode_ts s.fs_data e nm i
    filled-IsNew e slot le = record {
      slot = slot;
      text = text;
      length_le = le;
      in_use = created-InUse v first;
      fits = omega (arith, first.below, v.params.inodes_int);
      number_new = created-unnamed v first;
      name_new = name_new;
    }

    -- The new file in the first unused entry of the directory.
    pub filled-IsValid :
        (e : ℕ)
        → IsFirst (is_unused 0 s.fs_data) (entries_of s.fs_params) e
        → length nm ≤ 39
        → IsValid (record (created i s) { fs_data = fill_entry 0 e nm (pos i) s.fs_data })
    filled-IsValid e slot le =
        let vc = created-IsValid v first in
        record {
          params = vc.params;
          root = vc.root;
          files = vc.files;
          handles = vc.handles;
          dir = DirOk-fill vc.dir (filled-IsNew e slot le);
        }

    enter-Finished :
        Returns
          (λ _ t. Finished pt t)
          (and_then (add_dir_entry 0 nm (pos i) (created i s)) (after_add pt i))
    enter-Finished =
        let vc = created-IsValid v first in
        let uc = created-InUse v first in
        let undo = undo-Finished i vc uc (created-unnamed v first) in
        elim (dec_le (length nm) 39) [
          | yes le ↦
              rw (add_dir_entry-done vc nm (pos i) some_name le)
                (elim (Option-cases
                  (first_index (entries_of s.fs_params) (is_unused 0 s.fs_data))) [
                    | inl e ↦ rw e undo
                    | inr (e, q) ↦
                        let slot = first_index-eq_some _ (is_unused 0 s.fs_data) q in
                        rw q (
                          open_finish-Finished posix i 0 (filled-IsValid e slot le) uc
                            (omega arith))
                  ])
          | no gt ↦ rw (add_dir_entry-long vc nm (pos i) (omega arith)) undo
        ]

  open_new-Finished :
      {s : Fs} (name : Option Text)
      → IsValid s
      → IsString name
      → valid_pathname name ≡ true
      → ((e : ℕ) → e < entries_of s.fs_params → is_named 0 (skip_slash name) s.fs_data e ≡ false)
      → Returns (λ _ t. Finished pt t) (open_new pt name 0 s)
  unfolding open_new
  open_new-Finished {s} name v text valid name_new = go (inode_create-Created s v.params.inodes_int)
    where
      go :
          {r : Out ℤ}
          → Created s r
          → Returns
              (λ _ t. Finished pt t)
              (and_then r (λ inum.
                if inum ==ℤ minus_one
                then unlock_return pt minus_one
                else (add_dir_entry 0 (skip_slash name) inum >>= λ added.
                    if added ==ℤ minus_one
                    then (inode_delete inum >> unlock_return pt minus_one)
                    else open_finish pt inum 0)))
      go (all_taken h) = unlock_return-Finished posix minus_one v
      go (made i first) =
          let (text', long) = skip_slash_lem name text valid in
          enter-Finished (skip_slash name) v text' long name_new i first

  open_path-Finished :
      {s : Fs} (name : Option Text) (mode : ℕ)
      → IsValid s
      → IsString name
      → valid_pathname name ≡ true
      → Returns (λ _ t. Finished pt t) (open_path pt name mode s)
  unfolding open_path tfs_lookup
  open_path-Finished {s} name mode v text valid =
      rw (root-inode_get v, valid) (go (find_in_dir-Lookup v (skip_slash name)))
    where
      go :
          {r : Out ℤ}
          → Lookup v (skip_slash name) r
          → Returns
              (λ _ t. Finished pt t)
              (and_then r (λ inum.
                if is_nonneg inum
                then open_existing pt inum mode
                else if creates mode
                then open_new pt name 0
                else unlock_return pt minus_one))
      go (absent h) = elim (Bool-cases (creates mode)) [
        | inl e ↦ rw e (open_new-Finished name v text valid h)
        | inr e ↦ rw e (unlock_return-Finished posix minus_one v)
      ]
      go (present e k _ _ u) = open_existing-Finished posix k mode v u

  -- From a well-formed state, with mutex calls that do not return -1, `tfs_open` returns for every
  -- mode and every path name that is NULL or a C string: no assertion fails, the new state is
  -- well-formed, and the mutex is free if the call that releases it returned 0.
  pub tfs_open-Finished :
      (name : Option Text) (mode : ℕ) (s : Fs)
      → IsValid s
      → IsString name
      → Returns (λ _ t. Finished pt t) (tfs_open pt name mode s)
  unfolding tfs_open
  tfs_open-Finished name mode s v text =
      rw (with_lock-done posix _ s) (elim (Bool-cases (valid_pathname name)) [
        | inl e ↦ rw e (open_path-Finished name mode (IsValid-locked _ v) text e)
        | inr e ↦ rw e (unlock_return-Finished posix minus_one (IsValid-locked _ v))
      ])
