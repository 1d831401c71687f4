-- ===== src/Fs/Content/Read.antt =====
-- `tfs_read` of fs/operations.c returns a slice of the file.
use Prim.Native.Nat.{min}
use ex.Common.{
  ℕ, ◌+◌, ◌-◌, ◌<◌, ◌≤◌, ◌≡◌, inl, inr, refl, sym, ap, ◌∙◌, false, some, List, length, take, drop,
  arith, Bool-cases, ltb, ltb→lt, lt→ltb, update_self,
}
use ex.Common.Int.{ℤ, pos, to_ssize}
use ex.Fs.State.Types.{Fs, OpenFileEntry, taken, is_free}
use ex.Fs.State.Memory.{read_bytes}
use ex.Fs.State.Monad.{done, Returns, returns}
use ex.Fs.State.Tables.{inode_get, get_open_file_entry}
use ex.Fs.Ops.Mutex.{Pthread, IsPosix, mutex_lock}
use ex.Fs.Ops.Transfer.{clip_read, read_entry, tfs_read}
use ex.Fs.Valid.{IsValid}
use ex.Fs.Safe.Clip.{clip_read_lem, to_ssize_small}
use ex.Fs.Safe.Finish.{IsValid-locked, locked_by, unlock_return-done}
use ex.Fs.Safe.Existing.{inode_get-done}
use ex.Fs.Safe.Read.{inode_of, IsWithin, length-read_bytes, read_block-done}
use ex.Fs.Content.{content, start_of}
use ex.Fs.Content.Bytes.{slice-read_bytes}

-- The value is the number of bytes copied; the bytes are those of the file from the handle's offset
-- on, `len` of them or as many as there are; the offset moves behind them; the files stay.
abbrev pub Sliced : Fs → ℕ → ℕ → ℤ × List ℕ → Fs → Type 0
Sliced s h len (r, bytes) t =
    (r ≡ pos (length bytes))
    × (bytes ≡ take len (drop (s.open_file_table h).of_offset (content s (inode_of s h))))
    × ((t.open_file_table h).of_offset ≡ (s.open_file_table h).of_offset + length bytes)
    × ((k : ℕ) → content t k ≡ content s k)

-- `get_open_file_entry` of an open handle.
pub get_open_file_entry-open :
    (s : Fs) (h : ℕ)
    → h < s.fs_params.max_open_files_count
    → s.free_open_file_entries h ≡ taken
    → get_open_file_entry s (pos h) ≡ some h
unfolding get_open_file_entry
get_open_file_entry-open s h lt t =
    let used : is_free (s.free_open_file_entries h) ≡ false = rw t in rw (lt→ltb _ _ lt, used)

module _ {pt : Pthread} (posix : IsPosix pt) where
  read_entry-Sliced :
      {s : Fs} (h len : ℕ)
      → IsValid s
      → h < s.fs_params.max_open_files_count
      → s.free_open_file_entries h ≡ taken
      → IsWithin s h
      → Returns (Sliced s h len) (read_entry pt len (some h) s)
  unfolding read_entry read_bytes
  read_entry-Sliced {s} h len v lt t within =
      let e = v.handles.handle h lt t in
      let f = e.file in
      let small = f.size_le in
      let k = inode_of s h in
      let o = (s.open_file_table h).of_offset in
      let found : inode_get (s.open_file_table h).of_inumber s ≡ done k s =
        rw e.number (inode_get-done s k e.below) in
      let n = clip_read (s.inode_table k).i_size (s.open_file_table h).of_offset len in
      let cut : n ≡ min len ((s.inode_table k).i_size - (s.open_file_table h).of_offset) =
        clip_read_lem _ _ len within (omega (arith, small, v.params.block_size_fits)) in
      let fits : (s.open_file_table h).of_offset + n ≤ (s.inode_table k).i_size =
        omega (arith, cut, within) in
      let count : to_ssize n ≡ pos n =
        to_ssize_small n (omega (arith, fits, small, v.params.block_size_fits)) in
      let slice : read_bytes s.fs_data (start_of s k + o) n ≡ take len (drop o (content s k)) =
        ap (read_bytes s.fs_data (start_of s k + o)) cut
        ∙ sym (slice-read_bytes s.fs_data (start_of s k) o len (s.inode_table k).i_size) in
      rw found (elim (Bool-cases (ltb 0 n)) [
        | inl some_bytes ↦
            rw (some_bytes, read_block-done h n v lt t fits posix (ltb→lt _ _ some_bytes))
              (returns (
                rw length-read_bytes count,
                slice,
                ap (λ (w : OpenFileEntry). w.of_offset)
                      (update_self s.open_file_table h
                        (record (s.open_file_table h) { of_offset = o + n }))
                    ∙ ap (λ j. o + j) (sym (length-read_bytes s.fs_data (start_of s k + o) n)),
                λ j. refl,
              ))
        | inr nothing ↦
            let z : n ≡ 0 = ground arith in
            rw (nothing, unlock_return-done posix)
              (returns (
                count ∙ ap pos z,
                ap (read_bytes s.fs_data (start_of s k + o)) (sym z) ∙ slice,
                omega arith,
                λ j. refl,
              ))
      ])

  -- In a well-formed state, with mutex calls that do not return -1, `tfs_read` through an open
  -- handle whose offset is not behind the end of its file returns the bytes of the file from the
  -- offset on: `len` bytes, or as many as the file has. The value is their number, the offset moves
  -- by it, and no file changes.
  pub tfs_read-Sliced :
      (h len : ℕ) (s : Fs)
      → IsValid s
      → h < s.fs_params.max_open_files_count
      → s.free_open_file_entries h ≡ taken
      → IsWithin s h
      → Returns (Sliced s h len) (tfs_read pt (pos h) len s)
  unfolding tfs_read mutex_lock
  tfs_read-Sliced h len s v lt t within =
      rw (posix.lock_ne, get_open_file_entry-open (locked_by pt s) h lt t)
        (read_entry-Sliced h len (IsValid-locked _ v) lt t within)
