-- ===== src/Fs/Valid/Search.antt =====
-- The directory functions of fs/state.c, called on the root directory of a well-formed state.
use ex.Common.{
  ℕ, ◌<◌, ◌≤◌, ◌≡◌, ap, arith, true, false, length, ltb, lt→ltb, ◌==◌, Option-cases, inl, inr,
}
use ex.Common.Int.{ℤ, pos, minus_one, pos_part}
use ex.Common.First.{first_index, IsFirst, first_index-eq_some, first_index-eq_none}
use ex.Fs.State.Types.{Fs, max_dir_entries, root_dir_inum, t_directory}
use ex.Fs.State.Memory.{Text}
use ex.Fs.State.Monad.{Out, done}
use ex.Fs.State.Tables.{data_block_get, inode_get}
use ex.Fs.State.Dir.{
  is_directory, find_in_dir, add_dir_entry, clear_dir_entry, inumber_at, fill_at, clear_at,
  is_named, is_unused, has_name,
}
use ex.Fs.Valid.{IsValid, InUse, entry_inumber, entries_of}
use ex.Fs.Valid.Dir.{named_used}

-- The inode 0 is a directory whose entries are in block 0.
pub record IsRooted (s : Fs) : Type 0 where
  pub directory : (s.inode_table 0).i_node_type ≡ t_directory
  pub block : (s.inode_table 0).i_data_block ≡ pos 0
  pub some_block : 0 < s.fs_params.max_block_count

module _ {s : Fs} (v : IsRooted s) where
  directory_block : data_block_get (s.inode_table 0).i_data_block s ≡ done 0 s
  unfolding data_block_get
  directory_block =
      rw (v.block, lt→ltb 0 s.fs_params.max_block_count v.some_block)
        (ap (λ (a : ℕ). done a s) (omega arith))

  is_dir : is_directory (s.inode_table 0).i_node_type ≡ true
  is_dir = rw v.directory

  pub clear_dir_entry-done :
      (nm : Text)
      → clear_dir_entry 0 nm s
        ≡ clear_at 0 (first_index (entries_of s.fs_params) (has_name 0 nm s.fs_data)) s
  unfolding clear_dir_entry max_dir_entries
  clear_dir_entry-done nm = rw (is_dir, directory_block)

pub IsValid-IsRooted : {s : Fs} → IsValid s → IsRooted s
IsValid-IsRooted v = record {
  directory = v.root.directory;
  block = v.root.block;
  some_block = v.params.some_block;
}

module _ {s : Fs} (v : IsValid s) where
  abbrev r : IsRooted s
  r = IsValid-IsRooted v

  pub root-inode_get : inode_get (pos root_dir_inum) s ≡ done 0 s
  unfolding inode_get
  root-inode_get = rw (lt→ltb 0 s.fs_params.max_inode_count v.params.some_inode)

  pub find_in_dir-done :
      (nm : Text)
      → find_in_dir 0 nm s
        ≡ done
            (inumber_at 0 s.fs_data
              (first_index (entries_of s.fs_params) (is_named 0 nm s.fs_data)))
            s
  unfolding find_in_dir max_dir_entries
  find_in_dir-done nm = rw (is_dir r, directory_block r)

  pub add_dir_entry-done :
      (nm : Text) (z : ℤ)
      → 0 < length nm
      → length nm ≤ 39
      → add_dir_entry 0 nm z s
        ≡ fill_at 0 nm z (first_index (entries_of s.fs_params) (is_unused 0 s.fs_data)) s
  unfolding add_dir_entry max_dir_entries
  add_dir_entry-done nm z a b =
      let e : (length nm == 0) ≡ false = ground arith in
      let l : ltb 39 (length nm) ≡ false = ground arith in rw (e, l, is_dir r, directory_block r)

  pub add_dir_entry-long :
      (nm : Text) (z : ℤ) → 39 < length nm → add_dir_entry 0 nm z s ≡ done minus_one s
  unfolding add_dir_entry
  add_dir_entry-long nm z a =
      let e : (length nm == 0) ≡ false = ground arith in
      let l : ltb 39 (length nm) ≡ true = ground arith in rw (e, l)

  -- The outcomes of a search for a name: it is nowhere, or in one entry, which refers to a file.
  pub data Lookup (nm : Text) : Out ℤ → Type 0 where
    absent :
        ((e : ℕ) → e < entries_of s.fs_params → is_named 0 nm s.fs_data e ≡ false)
        → Lookup nm (done minus_one s)
    present :
        (e k : ℕ)
        → IsFirst (is_named 0 nm s.fs_data) (entries_of s.fs_params) e
        → entry_inumber s.fs_data e ≡ pos k
        → InUse s.fs_params s.freeinode_ts k
        → Lookup nm (done (pos k) s)

  pub find_in_dir-Lookup : (nm : Text) → Lookup nm (find_in_dir 0 nm s)
  find_in_dir-Lookup nm =
      elim (Option-cases (first_index (entries_of s.fs_params) (is_named 0 nm s.fs_data))) [
        | inl q ↦
            rw (find_in_dir-done nm, q) (absent (first_index-eq_none _ (is_named 0 nm s.fs_data) q))
        | inr (e, q) ↦
            let f = first_index-eq_some (entries_of s.fs_params) (is_named 0 nm s.fs_data) q in
            let o = v.dir.entry e f.below (named_used nm s.fs_data e f.passes) in
            rw (find_in_dir-done nm, q, o.number)
              (present e (pos_part (entry_inumber s.fs_data e)) f o.number o.in_use)
      ]
