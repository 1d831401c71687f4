-- ===== src/Fs/Content/Again.antt =====
-- `tfs_write` of fs/operations.c, and then `tfs_read` through another handle of the file.
use ex.Common.{
  ℕ, zero, suc, ◌+◌, ◌^◌, ◌<◌, ◌≤◌, ◌≡◌, ◌≢◌, refl, ap, ◌∙◌, List, [], ◌∷◌, ◌++◌, length, take,
  drop, arith, length-take,
}
use ex.Common.Int.{ℤ, pos, minus_one, pos_part}
use ex.Fs.State.Types.{Fs, taken, OpenFileEntry}
use ex.Fs.State.Monad
use ex.Fs.State.Monad.{both, M, Returns, returns, pure, ◌>>=◌}
use ex.Fs.Ops.Mutex.{Pthread, IsPosix}
use ex.Fs.Ops.Transfer.{tfs_write, tfs_read}
use ex.Fs.Valid.{IsValid, InUse}
use ex.Fs.Safe.Read.{inode_of, IsWithin}
use ex.Fs.Safe.Write.{tfs_write-Counted}
use ex.Fs.Content.{content}
use ex.Fs.Content.Keep.{length-content, content-empty}
use ex.Fs.Content.Bytes.{splice}
use ex.Fs.Content.Read.{tfs_read-Sliced}
use ex.Fs.Content.Write.{Wrote, no_block, wrote, tfs_write-Wrote}
use ex.Fs.Content.Frame.{Framed, tfs_write-Framed}

module _ {A : Type 0} where
  drop-past : (o : ℕ) (c bs : List A) → o ≤ length c → drop o (take o c ++ bs) ≡ bs
  drop-past zero c bs h = refl
  drop-past (suc o) [] bs h = absurd (omega arith)
  drop-past (suc o) (x ∷ c) bs h = drop-past o c bs (omega arith)

  take-front : (n : ℕ) (bs cs : List A) → n ≤ length bs → take n (bs ++ cs) ≡ take n bs
  take-front zero bs cs h = refl
  take-front (suc n) [] cs h = absurd (omega arith)
  take-front (suc n) (x ∷ bs) cs h = ap (λ r. x ∷ r) (take-front n bs cs (omega arith))

  take-twice : (n m : ℕ) (bs : List A) → n ≤ m → take n (take m bs) ≡ take n bs
  take-twice zero m bs h = refl
  take-twice (suc n) zero bs h = absurd (omega arith)
  take-twice (suc n) (suc m) [] h = refl
  take-twice (suc n) (suc m) (x ∷ bs) h = ap (λ r. x ∷ r) (take-twice n m bs (omega arith))

-- What was spliced in is read again.
take-drop-splice :
    (o n w : ℕ) (buffer c : List ℕ)
    → o ≤ length c
    → w ≤ length buffer
    → n ≤ w
    → take n (drop o (splice o (take w buffer) c)) ≡ take n buffer
take-drop-splice o n w buffer c within enough le =
    ap (take n) (drop-past o c (take w buffer ++ drop (o + length (take w buffer)) c) within)
    ∙ take-front n (take w buffer) _ (omega (arith, length-take w buffer enough, le))
    ∙ take-twice n w buffer le

take-drop-nothing : (n o : ℕ) → take {A = ℕ} n (drop o []) ≡ []
take-drop-nothing zero o = refl
take-drop-nothing (suc n) zero = refl
take-drop-nothing (suc n) (suc o) = refl

-- `tfs_write(h, buffer, w)` and then `tfs_read(g, ..., len)`: both values, and the bytes.
abbrev pub write_then_read : Pthread → ℕ → ℕ → List ℕ → ℕ → ℕ → M (ℤ × (ℤ × List ℕ))
write_then_read pt h g buffer w len = do
  written ← tfs_write pt (pos h) buffer w
  (r, bytes) ← tfs_read pt (pos g) len
  pure (written, (r, bytes))

-- What is read is what was written; or nothing was written and nothing is read, since the file is
-- empty and no block is free for it.
pub data Echoed (w len : ℕ) (buffer : List ℕ) : ℤ × (ℤ × List ℕ) → Type 0 where
  echoed :
      {bytes : List ℕ} → bytes ≡ take len buffer → Echoed w len buffer (pos w, (pos len, bytes))
  no_room : Echoed w len buffer (minus_one, (pos 0, []))

module _ {pt : Pthread} (posix : IsPosix pt) (h g w len : ℕ) (buffer : List ℕ) (s : Fs)
    (v : IsValid s) (hlt : h < s.fs_params.max_open_files_count)
    (ht : s.free_open_file_entries h ≡ taken) (glt : g < s.fs_params.max_open_files_count)
    (gt : s.free_open_file_entries g ≡ taken) (ne : g ≢ h) (same_file : inode_of s g ≡ inode_of s h)
    (same_offset : (s.open_file_table g).of_offset ≡ (s.open_file_table h).of_offset)
    (within : IsWithin s h) (u : InUse s.fs_params s.freeinode_ts (inode_of s h))
    (enough : w ≤ length buffer)
    (fits : (s.open_file_table h).of_offset + w ≤ s.fs_params.block_size) (le : len ≤ w) where
  small : w + s.fs_params.block_size < 2 ^ 64
  small = omega (arith, fits, v.params.block_size_fits)

  outcome :
      {r n : ℤ} {bytes : List ℕ} {t : Fs}
      → Wrote s h w buffer r t
      → bytes ≡ take len (drop (s.open_file_table h).of_offset (content t (inode_of s h)))
      → n ≡ pos (length bytes)
      → Echoed w len buffer (r, (n, bytes))
  outcome {bytes = bytes} (no_block empty full files) slice value =
      let none_read : bytes ≡ [] =
        slice
        ∙ ap (λ c. take len (drop (s.open_file_table h).of_offset c))
            (files (inode_of s h) ∙ content-empty s (inode_of s h) empty)
        ∙ take-drop-nothing len (s.open_file_table h).of_offset in
      rw (value, none_read) no_room
  outcome {bytes = bytes} (wrote m cut i) slice value =
      let whole : m ≡ w = omega (arith, cut, fits) in
      let read : bytes ≡ take len buffer =
        slice
        ∙ ap (λ c. take len (drop (s.open_file_table h).of_offset c))
            (i.file
              ∙ ap
                  (λ j.
                    splice (s.open_file_table h).of_offset (take j buffer)
                      (content s (inode_of s h)))
                  whole)
        ∙ take-drop-splice (s.open_file_table h).of_offset len w buffer (content s (inode_of s h))
            (omega (arith, within, length-content s (inode_of s h))) enough le in
      let count : length bytes ≡ len = ap length read ∙ length-take len buffer (omega arith) in
      rw (value, i.value, whole, count) (echoed read)

  read-Echoed :
      {r : ℤ} {t : Fs}
      → IsValid t
      → Framed s h t
      → Wrote s h w buffer r t
      → Returns (λ a z. Echoed w len buffer (r, a)) (tfs_read pt (pos g) len t)
  read-Echoed {r} {t} vt f wr =
      let e = f.other_entries g ne in
      let at = ap (λ (x : OpenFileEntry). x.of_offset) e ∙ same_offset in
      let file = ap (λ (x : OpenFileEntry). pos_part x.of_inumber) e ∙ same_file in
      let size = f.sizes (inode_of s h) in
      let here : IsWithin t g = rw (at, file) (omega (arith, within, size)) in
      Monad.mono
        (tfs_read-Sliced posix g len t vt (rw f.same_params glt) (rw f.same_handles gt) here)
        (λ (n, bytes) z (value, slice, moved, files).
          outcome wr
            (slice
              ∙ ap (take len) (
                  ap (λ i. drop i (content t (inode_of t g))) at
                  ∙ ap (λ k. drop (s.open_file_table h).of_offset (content t k)) file))
            value)

  -- `tfs_write` through an open handle `h`, and then `tfs_read` of at most as many bytes through
  -- another open handle `g` of the same file with the same offset, in a well-formed state, with mutex
  -- calls that do not return -1, a file that is not deleted, an offset that is not behind its end,
  -- and bytes that fit the block: both return. The read gives back the first `len` bytes of the
  -- buffer; or the write gives -1 and the read 0, with no bytes.
  pub write_then_read-Echoed :
      Returns (λ a z. Echoed w len buffer a) (write_then_read pt h g buffer w len s)
  write_then_read-Echoed =
      Monad.bind
        (both (tfs_write-Counted posix (pos h) buffer w s v enough small) (
          both (tfs_write-Framed posix h w buffer s v hlt ht u enough small)
            (tfs_write-Wrote posix h w buffer s v hlt ht within u enough small)))
        (λ r t (c, (f, wr)). Monad.bind (read-Echoed c.0.valid f wr) (λ a z q. returns q))
