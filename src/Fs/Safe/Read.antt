-- ===== src/Fs/Safe/Read.antt =====
-- `tfs_read` in a well-formed state.
use Prim.Native.Nat.{min}
use ex.Common.{
  ℕ, zero, suc, ◌+◌, ◌-◌, ◌*◌, ◌<◌, ◌≤◌, ◌≡◌, ◌⊎◌, inl, inr, refl, ap, ◌∙◌, true, Option, some,
  List, length, arith, Bool-cases, ltb, ltb→lt, leb, update,
}
use ex.Common.Int.{ℤ, pos, minus_one, pos_part, to_ssize}
use ex.Fs.State.Types.{Fs, taken}
use ex.Fs.State.Memory.{Memory, read_bytes}
use ex.Fs.State.Monad.{done, Returns, returns}
use ex.Fs.State.Tables.{data_block_get, inode_get}
use ex.Fs.Ops.Mutex.{Pthread, IsPosix, mutex_lock}
use ex.Fs.Ops.Transfer.{
  add_size, clip_read, memcpy_out, read_block, read_entry, tfs_read, data_bytes,
}
use ex.Fs.Valid.{IsValid, HandleOk, block_no}
use ex.Fs.Valid.Nodes.{HandlesOk-entry}
use ex.Fs.Safe.Clip.{clip_read_lem, to_ssize_small, add_size_small, mul-add_le}
use ex.Fs.Safe.Finish.{Finished, IsValid-locked, unlock_return-done, Finished-unlocked, unlocked}
use ex.Fs.Safe.Close.{Entry, closed, opened, get_open_file_entry-Entry}
use ex.Fs.Safe.Existing.{inode_get-done}
use ex.Fs.Safe.Block.{data_block_get-done}

pub length-read_bytes : (m : Memory) (a n : ℕ) → length (read_bytes m a n) ≡ n
unfolding read_bytes
length-read_bytes m a zero = refl
length-read_bytes m a (suc n) = ap suc (length-read_bytes m (a + 1) n)

-- The inode of the open file entry `h`.
abbrev pub inode_of : Fs → ℕ → ℕ
inode_of s h = pos_part (s.open_file_table h).of_inumber

-- The offset of the entry is not behind the end of the file.
abbrev pub IsWithin : Fs → ℕ → Type 0
IsWithin s h = (s.open_file_table h).of_offset ≤ (s.inode_table (inode_of s h)).i_size

-- The state is as after every operation; the value is -1, or the number of bytes that were copied,
-- at most `len`.
abbrev pub Copied : Pthread → ℕ → ℤ × List ℕ → Fs → Type 0
Copied pt len (r, bytes) t =
    Finished pt t × ((r ≡ minus_one) ⊎ ((r ≡ pos (length bytes)) × (length bytes ≤ len)))

-- The state after a read of `n` bytes.
abbrev pub advanced : Fs → ℕ → ℕ → Fs
advanced s h n = record s {
  open_file_table =
      update s.open_file_table h
        (record (s.open_file_table h) { of_offset = (s.open_file_table h).of_offset + n });
}

module _ {s : Fs} (h n : ℕ) (v : IsValid s) (lt : h < s.fs_params.max_open_files_count)
    (t : s.free_open_file_entries h ≡ taken)
    (fits : (s.open_file_table h).of_offset + n ≤ (s.inode_table (inode_of s h)).i_size) where
  abbrev k : ℕ
  k = inode_of s h

  abbrev o : ℕ
  o = (s.open_file_table h).of_offset

  abbrev address : ℕ
  address = block_no (s.inode_table k) * s.fs_params.block_size + o

  e : HandleOk s.fs_params s.inode_table (s.open_file_table h)
  e = v.handles.handle h lt t

  in_memory : 0 < n → leb (address + n) (data_bytes s.allocated) ≡ true
  in_memory p =
      let same = v.params.same in
      let f = e.file in
      let below = f.below (omega arith) in
      let inside = mul-add_le _ s.fs_params.max_block_count s.fs_params.block_size below in
      let le = f.size_le in rw same (ground arith)

  block_found :
      0 < n
      → data_block_get (s.inode_table k).i_data_block s
        ≡ done (block_no (s.inode_table k) * s.fs_params.block_size) s
  block_found p =
      let f = e.file in
      rw (f.number (omega arith)) (data_block_get-done s _ (f.below (omega arith)))

  moved : add_size o n ≡ o + n
  moved =
      let f = e.file in
      let le = f.size_le in add_size_small o n (omega (arith, v.params.block_size_fits))

  -- The copy does not fault, and changes nothing but the offset.
  pub read_block-done :
      {pt : Pthread}
      → IsPosix pt
      → 0 < n
      → read_block pt h k n s
        ≡ done (to_ssize n, read_bytes s.fs_data address n) (unlocked pt (advanced s h n))
  unfolding read_block memcpy_out
  read_block-done posix p = rw (block_found p, in_memory p, moved, unlock_return-done posix)

  pub advanced-IsValid : IsValid (advanced s h n)
  advanced-IsValid =
      let f = e.file in
      let le = f.size_le in
      record {
        params = v.params;
        root = v.root;
        files = v.files;
        handles =
            HandlesOk-entry v.handles h (record (s.open_file_table h) { of_offset = o + n })
              (record {
                number = e.number;
                below = e.below;
                ne_root = e.ne_root;
                offset_le = omega arith;
                file = e.file;
              });
        dir = v.dir;
      }

module _ {pt : Pthread} (posix : IsPosix pt) where
  read_opened-Copied :
      {s : Fs} (h len : ℕ)
      → IsValid s
      → h < s.fs_params.max_open_files_count
      → s.free_open_file_entries h ≡ taken
      → IsWithin s h
      → Returns (Copied pt len) (read_entry pt len (some h) s)
  unfolding read_entry
  read_opened-Copied {s} h len v lt t within =
      let e = v.handles.handle h lt t in
      let f = e.file in
      let small = f.size_le in
      let k = inode_of s h in
      let found : inode_get (s.open_file_table h).of_inumber s ≡ done k s =
        rw e.number (inode_get-done s k e.below) in
      let n = clip_read (s.inode_table k).i_size (s.open_file_table h).of_offset len in
      let cut : n ≡ min len ((s.inode_table k).i_size - (s.open_file_table h).of_offset) =
        clip_read_lem _ _ len within (omega (arith, small, v.params.block_size_fits)) in
      let fits : (s.open_file_table h).of_offset + n ≤ (s.inode_table k).i_size =
        omega (arith, cut, within) in
      let count : to_ssize n ≡ pos n =
        to_ssize_small n (omega (arith, fits, small, v.params.block_size_fits)) in
      rw found (elim (Bool-cases (ltb 0 n)) [
        | inl some_bytes ↦
            rw (some_bytes, read_block-done h n v lt t fits posix (ltb→lt _ _ some_bytes))
              (returns (
                Finished-unlocked posix (advanced-IsValid h n v lt t fits),
                inr (rw length-read_bytes count, rw length-read_bytes (omega (arith, cut))),
              ))
        | inr nothing ↦
            let z : n ≡ 0 = ground arith in
            rw (nothing, unlock_return-done posix)
              (returns (Finished-unlocked posix v, inr (count ∙ ap pos z, omega arith)))
      ])

  read_entry-Copied :
      {s : Fs} (fhandle : ℤ) (len : ℕ) {o : Option ℕ}
      → IsValid s
      → Entry s fhandle o
      → ((h : ℕ) → fhandle ≡ pos h → IsWithin s h)
      → Returns (Copied pt len) (read_entry pt len o s)
  unfolding read_entry
  read_entry-Copied fhandle len v closed w =
      rw (unlock_return-done posix) (returns (Finished-unlocked posix v, inl refl))
  read_entry-Copied fhandle len v (opened h e lt t) w = read_opened-Copied h len v lt t (w h e)

  -- From a well-formed state in which the handle's offset is not behind the end of its file, and
  -- with mutex calls that do not return -1, `tfs_read` returns: no assertion fails and memcpy stays
  -- in the allocated memory. The new state is well-formed, the mutex is free if the call that
  -- releases it returned 0, and the value is -1 or the number of bytes copied, at most `len`.
  pub tfs_read-Copied :
      (fhandle : ℤ) (len : ℕ) (s : Fs)
      → IsValid s
      → ((h : ℕ) → fhandle ≡ pos h → IsWithin s h)
      → Returns (Copied pt len) (tfs_read pt fhandle len s)
  unfolding tfs_read mutex_lock
  tfs_read-Copied fhandle len s v w =
      rw posix.lock_ne
        (read_entry-Copied fhandle len (IsValid-locked _ v) (get_open_file_entry-Entry _ fhandle) w)
