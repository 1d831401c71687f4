-- ===== src/Fs/Content/Splice.antt =====
-- The copy in `tfs_write` of fs/operations.c splices the caller's bytes into the file.
use native.Mathlib.Decide.{dec_lt, ℕ_discrete}
use ex.Common.{
  ℕ, ◌+◌, ◌*◌, ◌<◌, ◌≤◌, ◌≡◌, ◌≢◌, inl, inr, ap, ◌∙◌, subst, List, length, take, length-take, arith,
  update_self, update-ne,
}
use ex.Common.Int.{ℤ, pos, pos_part}
use ex.Fs.State.Types.{Fs, Inode, OpenFileEntry}
use ex.Fs.State.Memory.{read_bytes}
use ex.Fs.State.Memory.Bytes.{write_bytes-outside}
use ex.Fs.State.Monad.{Returns, returns}
use ex.Fs.Ops.Mutex.{Pthread, IsPosix}
use ex.Fs.Ops.Transfer.{grow, write_block}
use ex.Fs.Valid.{IsValid, InUse, block_no}
use ex.Fs.Safe.Clip.{to_ssize_small, mul-add_le}
use ex.Fs.Safe.Block.{CanHold, write_block-done, written}
use ex.Fs.Safe.Read.{inode_of}
use ex.Fs.Safe.Room.{with_block}
use ex.Fs.Content.{content}
use ex.Fs.Content.Bytes.{splice, read_written, read_bytes-Agree}

-- The first `n` bytes of the buffer are in the file of the handle from its offset on, the other
-- files are as before, and the offset is behind the bytes.
pub record IsSpliced (s : Fs) (h n : ℕ) (buffer : List ℕ) (r : ℤ) (t : Fs) : Type 0 where
  pub value : r ≡ pos n
  pub file :
      content t (inode_of s h)
      ≡ splice (s.open_file_table h).of_offset (take n buffer) (content s (inode_of s h))
  pub others :
      (j : ℕ) → j ≢ inode_of s h → InUse s.fs_params s.freeinode_ts j → content t j ≡ content s j
  pub offset : (t.open_file_table h).of_offset ≡ (s.open_file_table h).of_offset + n

module _ {s : Fs} (h : ℕ) {k b : ℕ} (bs : List ℕ) (c : CanHold s k b) where
  abbrev o : ℕ
  o = (s.open_file_table h).of_offset

  node : Inode
  node = record (s.inode_table k) { i_size = grow (s.inode_table k).i_size (o + length bs) }

  -- The file after the copy.
  pub content-written :
      o ≤ (s.inode_table k).i_size
      → content (written s h k b o bs) k
        ≡ splice o bs (read_bytes s.fs_data (b * s.fs_params.block_size) (s.inode_table k).i_size)
  unfolding node
  content-written le =
      rw (update_self s.inode_table k node, c.number)
        (read_written s.fs_data (b * s.fs_params.block_size) o (s.inode_table k).i_size bs le)

  -- The other files.
  pub content-written_other :
      (j : ℕ)
      → IsValid s
      → o + length bs ≤ s.fs_params.block_size
      → InUse s.fs_params s.freeinode_ts k
      → j ≢ k
      → InUse s.fs_params s.freeinode_ts j
      → content (written s h k b o bs) j ≡ content s j
  unfolding node
  content-written_other j v fits uk ne uj =
      let n = s.fs_params.block_size in
      let f = v.files.file j uj in
      let bj = block_no (s.inode_table j) in
      rw (update-ne s.inode_table k node j ne) (
        read_bytes-Agree s.fs_data _ (bj * n) (s.inode_table j).i_size (λ p l u.
          let le = f.size_le in
          let apart = c.apart uk j ne uj (omega arith) in
          write_bytes-outside s.fs_data (b * n + o) bs p (elim (dec_lt b bj) [
            | yes lt ↦ inr (omega (arith, mul-add_le b bj n lt))
            | no ge ↦
                let gt : bj < b = omega (arith, apart) in inl (omega (arith, mul-add_le bj b n gt))
          ])))

-- The same files were there in another state with the same table of open files.
pub IsSpliced-same :
    {u : Fs} (s : Fs) {h n : ℕ} {buffer : List ℕ} {r : ℤ} {t : Fs}
    → u.open_file_table ≡ s.open_file_table
    → ((j : ℕ) → InUse s.fs_params s.freeinode_ts j → InUse u.fs_params u.freeinode_ts j)
    → ((j : ℕ) → content u j ≡ content s j)
    → IsSpliced u h n buffer r t
    → IsSpliced s h n buffer r t
IsSpliced-same {u} s {h} {n} {buffer} {r} {t} e used same w = record {
  value = w.value;
  file =
      subst
        (λ (g : ℕ → OpenFileEntry).
          content t (pos_part (g h).of_inumber)
          ≡ splice (g h).of_offset (take n buffer) (content s (pos_part (g h).of_inumber)))
        e
        (w.file
          ∙ ap (splice (u.open_file_table h).of_offset (take n buffer)) (same (inode_of u h)));
  others = λ j ne uj.
      w.others j (λ q. ne (q ∙ ap (λ (g : ℕ → OpenFileEntry). pos_part (g h).of_inumber) e))
        (used j uj)
      ∙ same j;
  offset =
      subst (λ (g : ℕ → OpenFileEntry). (t.open_file_table h).of_offset ≡ (g h).of_offset + n) e
        w.offset;
}

-- The bytes of a file do not change when it is empty and gets a block.
pub content-with_block :
    (s : Fs) (k b : ℕ)
    → (s.inode_table k).i_size ≡ 0
    → (j : ℕ) → content (with_block k b s) j ≡ content s j
unfolding read_bytes
content-with_block s k b empty j = elim (ℕ_discrete j k) [
  | yes q ↦
      rw (q, update_self s.inode_table k (record (s.inode_table k) { i_data_block = pos b }), empty)
  | no ne ↦ rw (update-ne s.inode_table k (record (s.inode_table k) { i_data_block = pos b }) j ne)
]

module _ {pt : Pthread} (posix : IsPosix pt) where
  pub write_block-IsSpliced :
      {s : Fs} (h b n : ℕ) (buffer : List ℕ)
      → IsValid s
      → CanHold s (inode_of s h) b
      → InUse s.fs_params s.freeinode_ts (inode_of s h)
      → (s.open_file_table h).of_offset ≤ (s.inode_table (inode_of s h)).i_size
      → (s.open_file_table h).of_offset + n ≤ s.fs_params.block_size
      → n ≤ length buffer
      → Returns (IsSpliced s h n buffer) (write_block pt h (inode_of s h) buffer n s)
  write_block-IsSpliced {s} h b n buffer v c u within fits enough =
      let long : length (take n buffer) ≡ n = length-take n buffer enough in
      let o = (s.open_file_table h).of_offset in
      let start : b ≡ block_no (s.inode_table (inode_of s h)) = rw c.number in
      rw (write_block-done h n buffer v c fits enough posix) (
        returns (record {
          value = to_ssize_small n (omega (arith, fits, v.params.block_size_fits));
          file =
              content-written h (take n buffer) c within
              ∙ ap
                  (λ a. splice o (take n buffer) (
                    read_bytes s.fs_data (a * s.fs_params.block_size)
                      (s.inode_table (inode_of s h)).i_size))
                  start;
          others = λ j ne uj.
              content-written_other h (take n buffer) c j v (omega (arith, long, fits)) u ne uj;
          offset =
              ap (λ (e : OpenFileEntry). e.of_offset) (update_self s.open_file_table h _)
              ∙ ap (λ i. o + i) long;
        }))
