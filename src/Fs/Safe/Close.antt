-- ===== src/Fs/Safe/Close.antt =====
-- `tfs_close` and `tfs_unlink` in a well-formed state.
use native.Mathlib.Decide.{ℕ_discrete}
use ex.Common.{
  ℕ, ◌<◌, ◌≡◌, ◌≢◌, inl, inr, refl, sym, ◌∙◌, ap, true, false, Option, none, some, length,
  Bool-cases, ltb, ltb→lt, lt→ltb, if◌then◌else◌,
}
use ex.Common.Int.{ℤ, pos, negsuc, minus_one, ◌==ℤ◌}
use ex.Common.First.{IsFirst, first_index-of_first}
use ex.Fs.State.Types.{Fs, taken, is_free}
use ex.Fs.State.Memory.{Text, IsText}
use ex.Fs.State.Monad.{Out, done, Returns, returns, and_then, ◌>>=◌, ◌>>◌}
use ex.Fs.State.Tables.{
  get_open_file_entry, remove_from_open_file_table, release_entry, inode_delete,
}
use ex.Fs.State.Dir.{is_named, clear_entry, clear_dir_entry, has_name}
use ex.Fs.Ops.Mutex.{Pthread, IsPosix, unlock_return, valid_pathname, skip_slash, tfs_lookup}
use ex.Fs.Ops.Open.{close_entry, tfs_close}
use ex.Fs.Ops.Unlink.{unlink_path, tfs_unlink}
use ex.Fs.Valid.{IsValid, InUse, entry_inumber, entries_of}
use ex.Fs.Valid.Alloc.{taken_of_test}
use ex.Fs.Valid.Delete.{deleted, inode_delete-done, deleted-IsValid}
use ex.Fs.Valid.Dir.{DirOk-free, DirOk-clear, IsFirst-has_name}
use ex.Fs.Valid.Entries.{clear_entry-Rewritten, entry_inumber-same}
use ex.Fs.Valid.Search.{
  root-inode_get, Lookup, absent, present, find_in_dir-Lookup, clear_dir_entry-done, IsRooted,
  IsValid-IsRooted,
}
use ex.Fs.Valid.Nodes.{HandlesOk-release}
use ex.Fs.Safe.Finish.{
  Finished, IsValid-locked, Finished-unlocked, unlocked, unlock_return-done, unlock_return-Finished,
  with_lock-done, IsString, skip_slash_lem,
}

-- The state without the file `k` and its entry `e`.
abbrev pub removed : ℕ → ℕ → Fs → Fs
removed e k s = record (deleted k s) { fs_data = clear_entry 0 e s.fs_data }

-- What `get_open_file_entry` says of a handle.
pub data Entry (s : Fs) (fhandle : ℤ) : Option ℕ → Type 0 where
  closed : Entry s fhandle none
  opened :
      (h : ℕ)
      → fhandle ≡ pos h
      → h < s.fs_params.max_open_files_count
      → s.free_open_file_entries h ≡ taken
      → Entry s fhandle (some h)

pub get_open_file_entry-Entry :
    (s : Fs) (fhandle : ℤ) → Entry s fhandle (get_open_file_entry s fhandle)
unfolding get_open_file_entry
get_open_file_entry-Entry s (negsuc n) = closed
get_open_file_entry-Entry s (pos h) = elim (Bool-cases (ltb h s.fs_params.max_open_files_count)) [
  | inl lt ↦ elim (Bool-cases (is_free (s.free_open_file_entries h))) [
    | inl e ↦ rw (lt, e) closed
    | inr e ↦ rw (lt, e) (opened h refl (ltb→lt _ _ lt) (taken_of_test _ e))
  ]
  | inr ge ↦ rw ge closed
]

module _ {pt : Pthread} (posix : IsPosix pt) where
  release-IsValid : {s : Fs} (h : ℕ) → IsValid s → IsValid (release_entry h s)
  release-IsValid h v = record {
    params = v.params;
    root = v.root;
    files = v.files;
    handles = HandlesOk-release v.handles h;
    dir = v.dir;
  }

  pub remove-done :
      (s : Fs) (h : ℕ)
      → h < s.fs_params.max_open_files_count
      → s.free_open_file_entries h ≡ taken
      → remove_from_open_file_table (pos h) s ≡ done tt (release_entry h s)
  unfolding remove_from_open_file_table
  remove-done s h lt t =
      let used : is_free (s.free_open_file_entries h) ≡ false = rw t in rw (lt→ltb _ _ lt, used)

  close_entry-Finished :
      {s : Fs} (fhandle : ℤ) {o : Option ℕ}
      → IsValid s
      → Entry s fhandle o
      → Returns (λ _ t. Finished pt t) (close_entry pt fhandle o s)
  unfolding close_entry
  close_entry-Finished fhandle v closed = unlock_return-Finished posix minus_one v
  close_entry-Finished {s} fhandle v (opened h e lt t) =
      rw (e, remove-done s h lt t) (unlock_return-Finished posix (pos 0) (release-IsValid h v))

  -- From a well-formed state, with mutex calls that do not return -1, `tfs_close` of any handle
  -- returns and leaves a well-formed state, and the mutex is free if the call that releases it
  -- returned 0.
  pub tfs_close-Finished :
      (fhandle : ℤ) (s : Fs) → IsValid s → Returns (λ _ t. Finished pt t) (tfs_close pt fhandle s)
  unfolding tfs_close
  tfs_close-Finished fhandle s v =
      rw (with_lock-done posix _ s)
        (close_entry-Finished fhandle (IsValid-locked _ v) (get_open_file_entry-Entry _ fhandle))

  -- After its entry is cleared no entry refers to the inode.
  cleared-unnamed :
      {s : Fs} (e k : ℕ)
      → IsValid s
      → e < entries_of s.fs_params
      → entry_inumber s.fs_data e ≡ pos k
      → (d : ℕ) → d < entries_of s.fs_params
      → entry_inumber (clear_entry 0 e s.fs_data) d ≢ pos k
  cleared-unnamed {s} e k v le q d ld r =
      let w = clear_entry-Rewritten s.fs_data e in
      elim (ℕ_discrete d e) [
        | yes de ↦ cc (w.number, r, ap (entry_inumber (clear_entry 0 e s.fs_data)) de)
        | no ne ↦
            let old : entry_inumber s.fs_data d ≡ pos k =
              sym (entry_inumber-same s.fs_data _ d (w.others d ne)) ∙ r in
            ne (v.dir.numbers_apart d e ld le (λ z. absurd (cc (old, z))) (old ∙ sym q))
      ]

  pub unlink_found-done :
      {s : Fs} (nm : Text) (e k : ℕ)
      → IsValid s
      → IsText nm
      → 0 < length nm
      → IsFirst (is_named 0 nm s.fs_data) (entries_of s.fs_params) e
      → InUse s.fs_params s.freeinode_ts k
      → and_then (inode_delete (pos k) s) (λ _. clear_dir_entry 0 nm >>= λ cleared.
          if cleared ==ℤ minus_one then unlock_return pt minus_one else unlock_return pt (pos 0))
        ≡ done (pos 0) (unlocked pt (removed e k s))
  unlink_found-done {s} nm e k v text long f u =
      let rooted = IsValid-IsRooted v in
      let r : IsRooted (deleted k s) = record {
        directory = rooted.directory;
        block = rooted.block;
        some_block = rooted.some_block;
      } in
      rw
        (
          inode_delete-done v u,
          clear_dir_entry-done {s = deleted k s} r nm,
          first_index-of_first (entries_of s.fs_params) (has_name 0 nm s.fs_data)
              (IsFirst-has_name v.dir nm e text long f),
        )
        (unlock_return-done posix (pos 0) (removed e k s))

  pub removed-IsValid :
      {s : Fs} (e k : ℕ)
      → IsValid s
      → e < entries_of s.fs_params
      → entry_inumber s.fs_data e ≡ pos k
      → InUse s.fs_params s.freeinode_ts k
      → IsValid (removed e k s)
  removed-IsValid {s} e k v le q u =
      deleted-IsValid v u (clear_entry 0 e s.fs_data)
        (DirOk-free (DirOk-clear v.dir e) k (cleared-unnamed e k v le q))

  unlink_path-Finished :
      {s : Fs} (name : Option Text)
      → IsValid s
      → IsString name
      → valid_pathname name ≡ true
      → Returns (λ _ t. Finished pt t) (unlink_path pt name s)
  unfolding unlink_path tfs_lookup
  unlink_path-Finished {s} name v text valid =
      rw (root-inode_get v, valid) (go (find_in_dir-Lookup v (skip_slash name)))
    where
      go :
          {r : Out ℤ}
          → Lookup v (skip_slash name) r
          → Returns
              (λ _ t. Finished pt t)
              (and_then r (λ inum.
                if inum ==ℤ minus_one
                then unlock_return pt minus_one
                else (inode_delete inum
                    >> (clear_dir_entry 0 (skip_slash name) >>= λ cleared.
                        if cleared ==ℤ minus_one
                        then unlock_return pt minus_one
                        else unlock_return pt (pos 0)))))
      go (absent h) = unlock_return-Finished posix minus_one v
      go (present e k f q u) =
          let (text', long) = skip_slash_lem name text valid in
          rw (unlink_found-done (skip_slash name) e k v text' long f u)
            (returns (Finished-unlocked posix (removed-IsValid e k v f.below q u)))

  -- From a well-formed state, with mutex calls that do not return -1, `tfs_unlink` of a path name
  -- that is NULL or a C string returns and leaves a well-formed state, and the mutex is free if the
  -- call that releases it returned 0.
  pub tfs_unlink-Finished :
      (target : Option Text) (s : Fs)
      → IsValid s
      → IsString target
      → Returns (λ _ t. Finished pt t) (tfs_unlink pt target s)
  unfolding tfs_unlink
  tfs_unlink-Finished target s v text =
      rw (with_lock-done posix _ s) (elim (Bool-cases (valid_pathname target)) [
        | inl e ↦ rw e (unlink_path-Finished target (IsValid-locked _ v) text e)
        | inr e ↦ rw e (unlock_return-Finished posix minus_one (IsValid-locked _ v))
      ])
