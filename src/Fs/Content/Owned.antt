-- ===== src/Fs/Content/Owned.antt =====
-- `tfs_write` of fs/operations.c: the block that it takes is the file's.
use ex.Common.{
  ℕ, ◌+◌, ◌^◌, ◌<◌, ◌≤◌, ◌≡◌, ◌≢◌, inl, inr, refl, sym, some, List, length, take, arith, Bool-cases,
  ltb, ◌==◌, update_self, update-ne, ◌∙◌, length-take,
}
use ex.Common.Int.{pos, minus_one}
use ex.Fs.State.Types.{Fs, taken, Inode}
use ex.Fs.State.Monad.{done, Returns, returns}
use ex.Fs.State.Tables.{inode_get}
use ex.Fs.Ops.Mutex.{Pthread, IsPosix}
use ex.Fs.Ops.Transfer.{clip_write, write_block, write_new, write_entry, tfs_write, grow}
use ex.Fs.Valid.{IsValid, InUse, FileOk, block_no}
use ex.Fs.Valid.Alloc.{Allocated-then, data_block_alloc-Allocated}
use ex.Fs.Valid.Tight.{IsTight, AllOwned, owned-AllOwned}
use ex.Fs.Safe.Clip.{clip_write_lem}
use ex.Fs.Safe.Finish.{IsValid-locked, locked_by, unlock_return-done, with_lock-done}
use ex.Fs.Safe.Block.{CanHold, write_block-done}
use ex.Fs.Safe.Existing.{inode_get-done}
use ex.Fs.Safe.Read.{inode_of}
use ex.Fs.Safe.Room.{handle-CanHold, with_block-IsValid, with_block-CanHold}
use ex.Fs.Content.Read.{get_open_file_entry-open}

-- The inode `k` after `m` bytes at the offset `o`.
module _ (s : Fs) (k : ℕ) where
  grown : ℕ → Inode
  grown m = record (s.inode_table k) { i_size = grow (s.inode_table k).i_size m }

module _ {pt : Pthread} (posix : IsPosix pt) where
  -- The file `k` gets bytes in block `b`, and what was taken before in a state `s0` was taken by
  -- files with the same blocks.
  write_block-IsTight :
      {s : Fs} (s0 : Fs) (h k b n : ℕ) (buffer : List ℕ)
      → IsValid s
      → CanHold s k b
      → (s.open_file_table h).of_offset + n ≤ s.fs_params.block_size
      → n ≤ length buffer
      → 0 < n
      → InUse s.fs_params s.freeinode_ts k
      → (0 < (s0.inode_table k).i_size → block_no (s0.inode_table k) ≡ b)
      → ((j : ℕ) → j ≢ k → s.inode_table j ≡ s0.inode_table j)
      → ((a : ℕ) → a ≢ b → s.free_blocks a ≡ taken → s0.free_blocks a ≡ taken)
      → Returns
          (λ _ t. AllOwned s.fs_params s0.inode_table s.freeinode_ts s0.free_blocks → IsTight t)
          (write_block pt h k buffer n s)
  unfolding grown
  write_block-IsTight {s} s0 h k b n buffer v c fits enough some_bytes u old others blocks =
      rw (write_block-done h n buffer v c fits enough posix) (
        returns (λ tight.
          owned-AllOwned k b u
            (rw
              (update_self s.inode_table k
                (grown s k ((s.open_file_table h).of_offset + length (take n buffer))))
              (ground (arith, length-take n buffer enough, some_bytes)))
            (rw (
              update_self s.inode_table k
                  (grown s k ((s.open_file_table h).of_offset + length (take n buffer))),
              c.number,
            ))
            old
            (λ j ne.
              update-ne s.inode_table k
                (grown s k ((s.open_file_table h).of_offset + length (take n buffer))) j ne
              ∙ others j ne)
            blocks tight))

  write_new-IsTight :
      {s : Fs} (h n : ℕ) (buffer : List ℕ)
      → IsValid s
      → FileOk s.fs_params (s.inode_table (inode_of s h))
      → InUse s.fs_params s.freeinode_ts (inode_of s h)
      → (s.inode_table (inode_of s h)).i_size ≡ 0
      → (s.open_file_table h).of_offset + n ≤ s.fs_params.block_size
      → n ≤ length buffer
      → 0 < n
      → Returns (λ _ t. IsTight s → IsTight t) (write_new pt h (inode_of s h) buffer n s)
  unfolding write_new
  write_new-IsTight {s} h n buffer v f u empty fits enough some_bytes =
      let k = inode_of s h in
      Allocated-then _ (Returns (λ _ t. IsTight s → IsTight t))
        (data_block_alloc-Allocated s v.params.blocks_int)
        (λ full. rw (unlock_return-done posix minus_one s) (returns (λ tight. tight)))
        (λ b first.
          write_block-IsTight s h k b n buffer (with_block-IsValid v f u.ne_root empty first)
            (with_block-CanHold v f u.ne_root empty first) fits enough some_bytes u
            (λ p. absurd (omega (arith, p, empty)))
            (λ j ne.
              update-ne s.inode_table k (record (s.inode_table k) { i_data_block = pos b }) j ne)
            (λ a ne h. sym (update-ne s.free_blocks b taken a ne) ∙ h))

  write_entry-IsTight :
      {s : Fs} (h w : ℕ) (buffer : List ℕ)
      → IsValid s
      → h < s.fs_params.max_open_files_count
      → s.free_open_file_entries h ≡ taken
      → InUse s.fs_params s.freeinode_ts (inode_of s h)
      → w ≤ length buffer
      → w + s.fs_params.block_size < 2 ^ 64
      → Returns (λ _ t. IsTight s → IsTight t) (write_entry pt buffer w (some h) s)
  unfolding write_entry
  write_entry-IsTight {s} h w buffer v lt t u enough small =
      let e = v.handles.handle h lt t in
      let k = inode_of s h in
      let found : inode_get (s.open_file_table h).of_inumber s ≡ done k s =
        rw e.number (inode_get-done s k e.below) in
      let n = clip_write s.fs_params.block_size (s.open_file_table h).of_offset w in
      let cut = clip_write_lem _ (s.open_file_table h).of_offset w e.offset_le small in
      let le : n ≤ length buffer = omega (arith, cut, enough) in
      let fits : (s.open_file_table h).of_offset + n ≤ s.fs_params.block_size =
        omega (arith, cut, e.offset_le) in
      rw found (elim (Bool-cases (ltb 0 n)) [
        | inl some_bytes ↦ rw some_bytes (elim (Bool-cases ((s.inode_table k).i_size == 0)) [
          | inl z ↦
              rw z (write_new-IsTight h n buffer v e.file u (ground arith) fits le (ground arith))
          | inr z ↦ rw z (
              write_block-IsTight s h k (block_no (s.inode_table k)) n buffer v
                (handle-CanHold k v e.file e.ne_root (ground arith)) fits le (ground arith) u
                (λ p. refl) (λ j ne. refl) (λ a ne h. h))
        ])
        | inr nothing ↦ rw (nothing, unlock_return-done posix) (returns (λ tight. tight))
      ])

  -- A write through an open handle of a file that is not deleted.
  pub tfs_write-IsTight :
      (h w : ℕ) (buffer : List ℕ) (s : Fs)
      → IsValid s
      → h < s.fs_params.max_open_files_count
      → s.free_open_file_entries h ≡ taken
      → InUse s.fs_params s.freeinode_ts (inode_of s h)
      → w ≤ length buffer
      → w + s.fs_params.block_size < 2 ^ 64
      → Returns (λ _ t. IsTight s → IsTight t) (tfs_write pt (pos h) buffer w s)
  unfolding tfs_write
  tfs_write-IsTight h w buffer s v lt t u enough small =
      rw (with_lock-done posix _ s, get_open_file_entry-open (locked_by pt s) h lt t)
        (write_entry-IsTight h w buffer (IsValid-locked _ v) lt t u enough small)
