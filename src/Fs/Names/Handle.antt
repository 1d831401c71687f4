-- ===== src/Fs/Names/Handle.antt =====
-- The handle that `tfs_open` of fs/operations.c returns.
use ex.Common.{ℕ, ◌<◌, ◌≤◌, ◌≡◌, refl, subst, sym, ◌∙◌, ap, false, update}
use ex.Common.Int.{ℤ, pos, minus_one}
use ex.Common.First.{IsFirst}
use ex.Fs.State.Types.{Fs, AllocationState, taken, is_free}
use ex.Fs.State.Monad.{Returns, returns}
use ex.Fs.State.Tables.{open_entry}
use ex.Fs.Ops.Mutex.{Pthread, IsPosix}
use ex.Fs.Ops.Open.{open_finish}
use ex.Fs.Valid.{IsValid, InUse}
use ex.Fs.Valid.Alloc.{Allocated-then, add_to_open_file_table-Allocated}
use ex.Fs.Safe.Finish.{IsValid-locked, unlock_return-done}
use ex.Fs.Safe.Existing.{open_entry-IsValid}

-- The table of open files is the same.
abbrev pub SameHandles : Fs → Fs → Type 0
SameHandles s t =
    (t.open_file_table ≡ s.open_file_table) × (t.free_open_file_entries ≡ s.free_open_file_entries)

-- The handle that is returned for inode `k`: the first free entry of the open file table of `s`,
-- or -1 if there is none. The other entries stay.
pub data Handle (s : Fs) (k offset : ℕ) : ℤ → Fs → Type 0 where
  table_full :
      {t : Fs}
      → ((i : ℕ)
          → i < s.fs_params.max_open_files_count
          → is_free (s.free_open_file_entries i) ≡ false)
      → SameHandles s t
      → Handle s k offset minus_one t
  handle :
      {t : Fs} (h : ℕ)
      → IsFirst (λ i. is_free (s.free_open_file_entries i)) s.fs_params.max_open_files_count h
      → t.free_open_file_entries ≡ update s.free_open_file_entries h taken
      → t.open_file_table
        ≡ update s.open_file_table h (record { of_inumber = pos k; of_offset = offset })
      → Handle s k offset (pos h) t

-- What the last part of `tfs_open` does to a state `u`.
pub record Ended (u : Fs) (k offset : ℕ) (r : ℤ) (t : Fs) : Type 0 where
  pub valid : IsValid t
  pub same_params : t.fs_params ≡ u.fs_params
  pub same_data : t.fs_data ≡ u.fs_data
  pub same_nodes : t.inode_table ≡ u.inode_table
  pub same_inodes : t.freeinode_ts ≡ u.freeinode_ts
  pub same_blocks : t.free_blocks ≡ u.free_blocks
  pub handle_of : Handle u k offset r t

-- The table of open files is the same before the last part of `tfs_open`.
pub Handle-same :
    {u : Fs} (s : Fs) {k offset : ℕ} {r : ℤ} {t : Fs}
    → u.fs_params ≡ s.fs_params
    → SameHandles s u
    → Handle u k offset r t
    → Handle s k offset r t
Handle-same s p (e, q) (table_full h same) =
    table_full
      (λ i lt.
        ap (λ (g : ℕ → AllocationState). is_free (g i)) (sym q)
        ∙ h i (subst (λ g. i < g.max_open_files_count) (sym p) lt))
      (same.0 ∙ e, same.1 ∙ q)
Handle-same s {k} {offset} p (e, q) (handle h f a b) =
    handle h
      (record {
        below = subst (λ g. h < g.max_open_files_count) p f.below;
        passes = ap (λ (g : ℕ → AllocationState). is_free (g h)) (sym q) ∙ f.passes;
        before = λ i lt. ap (λ (g : ℕ → AllocationState). is_free (g i)) (sym q) ∙ f.before i lt;
      })
      (a ∙ ap (λ g. update g h taken) q)
      (b ∙ ap (λ g. update g h (record { of_inumber = pos k; of_offset = offset })) e)

module _ {pt : Pthread} (posix : IsPosix pt) where
  pub open_finish-Ended :
      {u : Fs} (k offset : ℕ)
      → IsValid u
      → InUse u.fs_params u.freeinode_ts k
      → offset ≤ u.fs_params.block_size
      → Returns (Ended u k offset) (open_finish pt (pos k) offset u)
  unfolding open_finish
  open_finish-Ended {u} k offset v used le =
      Allocated-then _ (Returns (Ended u k offset))
        (add_to_open_file_table-Allocated u (pos k) offset v.params.files_int)
        (λ h. rw (unlock_return-done posix minus_one u) (
          returns (record {
            valid = IsValid-locked _ v;
            same_params = refl;
            same_data = refl;
            same_nodes = refl;
            same_inodes = refl;
            same_blocks = refl;
            handle_of = table_full h (refl, refl);
          })))
        (λ i f. rw (unlock_return-done posix (pos i) (open_entry (pos k) offset i u)) (
          returns (record {
            valid = IsValid-locked _ (open_entry-IsValid posix k offset i v used le);
            same_params = refl;
            same_data = refl;
            same_nodes = refl;
            same_inodes = refl;
            same_blocks = refl;
            handle_of = handle i f refl refl;
          })))
