-- ===== src/Fs/Content/Write.antt =====
-- `tfs_write` of fs/operations.c on the bytes of the files.
use Prim.Native.Nat.{min}
use ex.Common.{
  ℕ, Bool, ◌+◌, ◌-◌, ◌^◌, ◌<◌, ◌≤◌, ◌≡◌, inl, inr, refl, sym, ap, ◌∙◌, false, some, List, length,
  take, arith, Bool-cases, ltb, ◌==◌,
}
use ex.Common.Int.{ℤ, pos, minus_one, to_ssize}
use ex.Fs.State.Types.{Fs, taken, is_free}
use ex.Fs.State.Monad
use ex.Fs.State.Monad.{done, Returns, returns}
use ex.Fs.State.Tables.{inode_get}
use ex.Fs.Ops.Mutex.{Pthread, IsPosix}
use ex.Fs.Ops.Transfer.{clip_write, write_new, write_entry, tfs_write}
use ex.Fs.Valid.{IsValid, InUse, FileOk, block_no}
use ex.Fs.Valid.Alloc.{Allocated-then, data_block_alloc-Allocated}
use ex.Fs.Safe.Clip.{clip_write_lem, to_ssize_small}
use ex.Fs.Safe.Finish.{IsValid-locked, locked_by, unlock_return-done, with_lock-done}
use ex.Fs.Safe.Existing.{inode_get-done}
use ex.Fs.Safe.Read.{inode_of, IsWithin}
use ex.Fs.Safe.Room.{handle-CanHold, with_block-IsValid, with_block-CanHold}
use ex.Fs.Content.{content}
use ex.Fs.Content.Bytes.{splice, splice_nothing}
use ex.Fs.Content.Read.{get_open_file_entry-open}
use ex.Fs.Content.Splice.{IsSpliced, IsSpliced-same, content-with_block, write_block-IsSpliced}

-- The value and the state that a write of the first `w` bytes of the buffer leaves behind: as many
-- of them are written as the block has room for, unless the file is empty and no block is free.
pub data Wrote (s : Fs) (h w : ℕ) (buffer : List ℕ) : ℤ → Fs → Type 0 where
  no_block :
      {t : Fs}
      → (s.inode_table (inode_of s h)).i_size ≡ 0
      → ((i : ℕ) → i < s.fs_params.max_block_count → is_free (s.free_blocks i) ≡ false)
      → ((j : ℕ) → content t j ≡ content s j)
      → Wrote s h w buffer minus_one t
  wrote :
      {r : ℤ} {t : Fs} (n : ℕ)
      → n ≡ min w (s.fs_params.block_size - (s.open_file_table h).of_offset)
      → IsSpliced s h n buffer r t
      → Wrote s h w buffer r t

-- A write of no bytes.
nothing_written :
    {s : Fs} {b : Bool} (h n : ℕ) (buffer : List ℕ)
    → n ≡ 0
    → IsSpliced s h n buffer (to_ssize n) (record s { locked = b })
nothing_written {s} h n buffer z = record {
  value = to_ssize_small n (omega arith);
  file = sym (
      ap (λ i. splice (s.open_file_table h).of_offset (take i buffer) (content s (inode_of s h))) z
      ∙ splice_nothing (s.open_file_table h).of_offset (content s (inode_of s h)));
  others = λ j ne u. refl;
  offset = omega arith;
}

-- The mutex does not matter.
of_locked :
    {s : Fs} (b : Bool) {h w : ℕ} {buffer : List ℕ} {r : ℤ} {t : Fs}
    → Wrote (record s { locked = b }) h w buffer r t
    → Wrote s h w buffer r t
of_locked b (no_block e full same) = no_block e full same
of_locked {s} b (wrote n cut i) = wrote n cut (IsSpliced-same s refl (λ j u. u) (λ j. refl) i)

module _ {pt : Pthread} (posix : IsPosix pt) where
  write_new-Wrote :
      {s : Fs} (h n w : ℕ) (buffer : List ℕ)
      → IsValid s
      → FileOk s.fs_params (s.inode_table (inode_of s h))
      → InUse s.fs_params s.freeinode_ts (inode_of s h)
      → (s.inode_table (inode_of s h)).i_size ≡ 0
      → (s.open_file_table h).of_offset ≤ (s.inode_table (inode_of s h)).i_size
      → (s.open_file_table h).of_offset + n ≤ s.fs_params.block_size
      → n ≤ length buffer
      → n ≡ min w (s.fs_params.block_size - (s.open_file_table h).of_offset)
      → Returns (Wrote s h w buffer) (write_new pt h (inode_of s h) buffer n s)
  unfolding write_new
  write_new-Wrote {s} h n w buffer v f u empty within fits enough cut =
      Allocated-then _ (Returns (Wrote s h w buffer))
        (data_block_alloc-Allocated s v.params.blocks_int)
        (λ full.
          rw (unlock_return-done posix minus_one s) (returns (no_block empty full (λ j. refl))))
        (λ b first.
          Monad.mono
            (write_block-IsSpliced posix h b n buffer (with_block-IsValid v f u.ne_root empty first)
              (with_block-CanHold v f u.ne_root empty first) u (omega (arith, within, empty)) fits
              enough)
            (λ r t w.
              wrote n cut (
                IsSpliced-same s refl (λ j uj. uj) (content-with_block s (inode_of s h) b empty)
                  w)))

  write_entry-Wrote :
      {s : Fs} (h w : ℕ) (buffer : List ℕ)
      → IsValid s
      → h < s.fs_params.max_open_files_count
      → s.free_open_file_entries h ≡ taken
      → IsWithin s h
      → InUse s.fs_params s.freeinode_ts (inode_of s h)
      → w ≤ length buffer
      → w + s.fs_params.block_size < 2 ^ 64
      → Returns (Wrote s h w buffer) (write_entry pt buffer w (some h) s)
  unfolding write_entry
  write_entry-Wrote {s} h w buffer v lt t within u enough small =
      let e = v.handles.handle h lt t in
      let k = inode_of s h in
      let found : inode_get (s.open_file_table h).of_inumber s ≡ done k s =
        rw e.number (inode_get-done s k e.below) in
      let n = clip_write s.fs_params.block_size (s.open_file_table h).of_offset w in
      let cut : n ≡ min w (s.fs_params.block_size - (s.open_file_table h).of_offset) =
        clip_write_lem _ _ w e.offset_le small in
      let le : n ≤ length buffer = omega (arith, cut, enough) in
      let fits : (s.open_file_table h).of_offset + n ≤ s.fs_params.block_size =
        omega (arith, cut, e.offset_le) in
      rw found (elim (Bool-cases (ltb 0 n)) [
        | inl some_bytes ↦ rw some_bytes (elim (Bool-cases ((s.inode_table k).i_size == 0)) [
          | inl z ↦ rw z (write_new-Wrote h n w buffer v e.file u (ground arith) within fits le cut)
          | inr z ↦ rw z (
              Monad.mono
                (write_block-IsSpliced posix h (block_no (s.inode_table k)) n buffer v
                  (handle-CanHold k v e.file e.ne_root (ground arith)) u within fits le)
                (λ r t. wrote n cut))
        ])
        | inr nothing ↦
            rw (nothing, unlock_return-done posix)
              (returns (wrote n cut (nothing_written h n buffer (ground arith))))
      ])

  -- In a well-formed state, with mutex calls that do not return -1, `tfs_write` through an open
  -- handle of a file that is not deleted, with its offset not behind the end of the file, and with a
  -- count `w` that the buffer covers and that does not overflow a size_t with the block size,
  -- returns. Either the file is empty, no block is free, the value is -1 and no file changes; or the
  -- value is the smaller of `w` and the room behind the offset in the block, that many bytes of the
  -- buffer replace those of the file from the offset on, growing it where they pass its end, no
  -- other file changes, and the offset is behind the bytes.
  pub tfs_write-Wrote :
      (h w : ℕ) (buffer : List ℕ) (s : Fs)
      → IsValid s
      → h < s.fs_params.max_open_files_count
      → s.free_open_file_entries h ≡ taken
      → IsWithin s h
      → InUse s.fs_params s.freeinode_ts (inode_of s h)
      → w ≤ length buffer
      → w + s.fs_params.block_size < 2 ^ 64
      → Returns (Wrote s h w buffer) (tfs_write pt (pos h) buffer w s)
  unfolding tfs_write
  tfs_write-Wrote h w buffer s v lt t within u enough small =
      rw (with_lock-done posix _ s, get_open_file_entry-open (locked_by pt s) h lt t)
        (Monad.mono (write_entry-Wrote h w buffer (IsValid-locked _ v) lt t within u enough small)
          (λ r t. of_locked (locked_by pt s).locked))
