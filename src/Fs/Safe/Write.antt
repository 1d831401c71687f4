-- ===== src/Fs/Safe/Write.antt =====
-- `tfs_write` in a well-formed state.
use Prim.Native.Nat.{min}
use ex.Common.{
  ℕ, ◌+◌, ◌-◌, ◌^◌, ◌<◌, ◌≤◌, ◌≡◌, ◌≢◌, ◌⊎◌, inl, inr, refl, Option, some, List, length, arith,
  Bool-cases, ltb, ◌==◌,
}
use ex.Common.Int.{ℤ, pos, minus_one, pos_part, to_ssize}
use ex.Fs.State.Types.{Fs, taken}
use ex.Fs.State.Monad.{done, Returns, returns}
use ex.Fs.State.Tables.{inode_get}
use ex.Fs.Ops.Mutex.{Pthread, IsPosix, unlock_return}
use ex.Fs.Ops.Transfer.{clip_write, write_block, write_new, write_entry, tfs_write}
use ex.Fs.Valid.{IsValid, FileOk, block_no}
use ex.Fs.Valid.Alloc.{Allocated-then, data_block_alloc-Allocated}
use ex.Fs.Safe.Clip.{clip_write_lem, to_ssize_small}
use ex.Fs.Safe.Finish.{
  Finished, IsValid-locked, unlock_return-done, Finished-unlocked, with_lock-done,
}
use ex.Fs.Safe.Close.{Entry, closed, opened, get_open_file_entry-Entry}
use ex.Fs.Safe.Existing.{inode_get-done}
use ex.Fs.Safe.Block.{CanHold, write_block-done, written-IsValid}
use ex.Fs.Safe.Room.{handle-CanHold, with_block-IsValid, with_block-CanHold}

-- The state is as after every operation, and the value is -1 or a number of at most `w` bytes.
abbrev pub Counted : Pthread → ℕ → ℤ → Fs → Type 0
Counted pt w r t = Finished pt t × ((r ≡ minus_one) ⊎ ((n : ℕ) × (r ≡ pos n) × (n ≤ w)))

module _ {pt : Pthread} (posix : IsPosix pt) where
  fail-Counted :
      {s : Fs} (w : ℕ) → IsValid s → Returns (Counted pt w) (unlock_return pt minus_one s)
  fail-Counted {s} w v =
      rw (unlock_return-done posix minus_one s) (returns (Finished-unlocked posix v, inl refl))

  count-Counted :
      {s : Fs} (n w : ℕ)
      → IsValid s
      → n ≤ w
      → n < 2 ^ 63
      → Returns (Counted pt w) (unlock_return pt (to_ssize n) s)
  count-Counted {s} n w v le lt =
      rw (unlock_return-done posix (to_ssize n) s)
        (returns (Finished-unlocked posix v, inr (n, to_ssize_small n lt, le)))

  write_block-Counted :
      {s : Fs} (h k b n w : ℕ) (buffer : List ℕ)
      → IsValid s
      → CanHold s k b
      → h < s.fs_params.max_open_files_count
      → s.free_open_file_entries h ≡ taken
      → (s.open_file_table h).of_offset + n ≤ s.fs_params.block_size
      → n ≤ length buffer
      → n ≤ w
      → Returns (Counted pt w) (write_block pt h k buffer n s)
  write_block-Counted h k b n w buffer v c lt t fits enough le =
      rw (write_block-done h n buffer v c fits enough posix) (
        returns (
          Finished-unlocked posix (written-IsValid h n buffer v c fits enough lt t),
          inr (n, to_ssize_small n (omega (arith, v.params.block_size_fits)), le),
        ))

  write_new-Counted :
      {s : Fs} (h k n w : ℕ) (buffer : List ℕ)
      → IsValid s
      → FileOk s.fs_params (s.inode_table k)
      → k ≢ 0
      → (s.inode_table k).i_size ≡ 0
      → h < s.fs_params.max_open_files_count
      → s.free_open_file_entries h ≡ taken
      → (s.open_file_table h).of_offset + n ≤ s.fs_params.block_size
      → n ≤ length buffer
      → n ≤ w
      → Returns (Counted pt w) (write_new pt h k buffer n s)
  unfolding write_new
  write_new-Counted {s} h k n w buffer v f ne empty lt t fits enough le =
      Allocated-then _ (Returns (Counted pt w)) (data_block_alloc-Allocated s v.params.blocks_int)
        (λ _. fail-Counted w v)
        (λ b first.
          write_block-Counted h k b n w buffer (with_block-IsValid v f ne empty first)
            (with_block-CanHold v f ne empty first) lt t fits enough le)

  write_opened-Counted :
      {s : Fs} (h w : ℕ) (buffer : List ℕ)
      → IsValid s
      → h < s.fs_params.max_open_files_count
      → s.free_open_file_entries h ≡ taken
      → w ≤ length buffer
      → w + s.fs_params.block_size < 2 ^ 64
      → Returns (Counted pt w) (write_entry pt buffer w (some h) s)
  unfolding write_entry
  write_opened-Counted {s} h w buffer v lt t enough small =
      let e = v.handles.handle h lt t in
      let k = pos_part (s.open_file_table h).of_inumber in
      let found : inode_get (s.open_file_table h).of_inumber s ≡ done k s =
        rw e.number (inode_get-done s k e.below) in
      let n = clip_write s.fs_params.block_size (s.open_file_table h).of_offset w in
      let cut : n ≡ min w (s.fs_params.block_size - (s.open_file_table h).of_offset) =
        clip_write_lem _ _ w e.offset_le small in
      let le : n ≤ w = omega (arith, cut) in
      let fits : (s.open_file_table h).of_offset + n ≤ s.fs_params.block_size =
        omega (arith, cut, e.offset_le) in
      rw found (elim (Bool-cases (ltb 0 n)) [
        | inl some_bytes ↦ rw some_bytes (elim (Bool-cases ((s.inode_table k).i_size == 0)) [
          | inl z ↦ rw z (
              write_new-Counted h k n w buffer v e.file e.ne_root (ground arith) lt t fits
                (omega (arith, le)) le)
          | inr z ↦ rw z (
              write_block-Counted h k (block_no (s.inode_table k)) n w buffer v
                (handle-CanHold k v e.file e.ne_root (ground arith)) lt t fits (omega (arith, le))
                le)
        ])
        | inr nothing ↦
            rw nothing (count-Counted n w v le (omega (arith, fits, v.params.block_size_fits)))
      ])

  write_entry-Counted :
      {s : Fs} (fhandle : ℤ) (w : ℕ) (buffer : List ℕ) {o : Option ℕ}
      → IsValid s
      → Entry s fhandle o
      → w ≤ length buffer
      → w + s.fs_params.block_size < 2 ^ 64
      → Returns (Counted pt w) (write_entry pt buffer w o s)
  unfolding write_entry
  write_entry-Counted fhandle w buffer v closed enough small = fail-Counted w v
  write_entry-Counted fhandle w buffer v (opened h e lt t) enough small =
      write_opened-Counted h w buffer v lt t enough small

  -- From a well-formed state, with mutex calls that do not return -1, `tfs_write` returns for any
  -- handle and any count that the buffer covers and whose sum with the block size is below 2^64: no
  -- assertion fails and memcpy stays in the allocated memory. The new state is well-formed, the
  -- mutex is free if the call that releases it returned 0, and the value is -1 or at most the count.
  pub tfs_write-Counted :
      (fhandle : ℤ) (buffer : List ℕ) (w : ℕ) (s : Fs)
      → IsValid s
      → w ≤ length buffer
      → w + s.fs_params.block_size < 2 ^ 64
      → Returns (Counted pt w) (tfs_write pt fhandle buffer w s)
  unfolding tfs_write
  tfs_write-Counted fhandle buffer w s v enough small = rw (with_lock-done posix _ s) (
      write_entry-Counted fhandle w buffer (IsValid-locked _ v)
        (get_open_file_entry-Entry _ fhandle) enough small)
