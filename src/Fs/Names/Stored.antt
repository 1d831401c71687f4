-- ===== src/Fs/Names/Stored.antt =====
-- `tfs_write` of fs/operations.c to an empty file, and `tfs_close`, for a file under a name.
use ex.Common.{
  ℕ, zero, suc, ◌+◌, ◌^◌, ◌<◌, ◌≤◌, ◌≡◌, refl, ap, sym, ◌∙◌, subst, false, List, [], ◌∷◌, ◌++◌,
  length, take, drop, arith,
}
use ex.Common.Int.{ℤ, pos, minus_one}
use ex.Fs.State.Types.{Fs, AllocationState, taken, free, is_free}
use ex.Fs.State.Memory.{Text}
use ex.Fs.State.Monad
use ex.Fs.State.Monad.{M, done, both, Returns, returns, and_then, pure, ◌>>=◌}
use ex.Fs.State.Dir.{find_in_dir}
use ex.Fs.Ops.Mutex.{Pthread, IsPosix}
use ex.Fs.Ops.Open.{tfs_close}
use ex.Fs.Ops.Transfer.{tfs_write}
use ex.Fs.Valid.{IsValid, InUse}
use ex.Fs.Safe.Close.{tfs_close-Finished}
use ex.Fs.Safe.Read.{inode_of}
use ex.Fs.Safe.Write.{tfs_write-Counted}
use ex.Fs.Names.{same_data-SameNames, same_block-SameNames}
use ex.Fs.Names.Held.{Held, Held-file, Held-offset, Held-IsWithin}
use ex.Fs.Content.{content}
use ex.Fs.Content.Bytes.{splice}
use ex.Fs.Content.Keep.{content-empty, content-same}
use ex.Fs.Content.Still.{tfs_close-SameStore, tfs_close-freed}
use ex.Fs.Content.Write.{Wrote, no_block, wrote, tfs_write-Wrote}
use ex.Fs.Content.Frame.{Framed, tfs_write-Framed}
use ex.Fs.View.Lookups.{found-InUse}

drop-nothing : (m : ℕ) → drop {A = ℕ} m [] ≡ []
drop-nothing zero = refl
drop-nothing (suc m) = refl

append_nothing : (bs : List ℕ) → bs ++ [] ≡ bs
append_nothing [] = refl
append_nothing (b ∷ bs) = ap (λ r. b ∷ r) (append_nothing bs)

-- A write to an empty file makes its bytes those of the buffer.
splice_empty : (bs : List ℕ) → splice 0 bs [] ≡ bs
splice_empty bs = ap (λ r. bs ++ r) (drop-nothing (0 + length bs)) ∙ append_nothing bs

-- The file `k` of the name has the bytes, and the entry `h` of the table of open files is in the state
-- `st`.
pub record Stored (nm : Text) (k h : ℕ) (bytes : List ℕ) (st : AllocationState) (t : Fs)
    : Type 0 where
  pub valid : IsValid t
  pub found : find_in_dir 0 nm t ≡ done (pos k) t
  pub below : h < t.fs_params.max_open_files_count
  pub handle : t.free_open_file_entries h ≡ st
  pub bytes_of : content t k ≡ bytes

-- What a write to an empty file leaves.
pub data Filled (nm : Text) (s : Fs) (h k w : ℕ) (buffer : List ℕ) : ℤ → Fs → Type 0 where
  full :
      {t : Fs}
      → ((i : ℕ) → i < s.fs_params.max_block_count → is_free (s.free_blocks i) ≡ false)
      → Filled nm s h k w buffer minus_one t
  filled :
      {r : ℤ} {t : Fs}
      → r ≡ pos w
      → Stored nm k h (take w buffer) taken t
      → Filled nm s h k w buffer r t

module _ {nm : Text} {s : Fs} {h k w : ℕ} {buffer : List ℕ} (a : Held nm s h k)
    (empty : (s.inode_table k).i_size ≡ 0) (fits : w ≤ s.fs_params.block_size) where
  Wrote-Filled :
      {r : ℤ} {t : Fs}
      → IsValid t
      → Framed s h t
      → Wrote s h w buffer r t
      → Filled nm s h k w buffer r t
  Wrote-Filled v f (no_block e full_up files) = full full_up
  Wrote-Filled {t = t} v f (wrote n cut i) =
      let whole : n ≡ w = omega (arith, cut, fits, Held-offset a) in
      filled (i.value ∙ ap pos whole) (record {
        valid = v;
        found = same_block-SameNames a.valid v f.same_params f.directory nm (pos k) a.found;
        below = rw f.same_params a.below;
        handle = ap (λ g. g h) f.same_handles ∙ a.is_open;
        bytes_of =
            ap (λ j. content t j) (sym (Held-file a))
            ∙ i.file
            ∙ ap (λ o. splice o (take n buffer) (content s (inode_of s h))) (Held-offset a)
            ∙ ap (λ j. splice 0 (take n buffer) (content s j)) (Held-file a)
            ∙ ap (splice 0 (take n buffer)) (content-empty s k empty)
            ∙ splice_empty (take n buffer)
            ∙ ap (λ j. take j buffer) whole;
      })

  pub tfs_write-Filled :
      {pt : Pthread}
      → IsPosix pt
      → w ≤ length buffer
      → Returns (Filled nm s h k w buffer) (tfs_write pt (pos h) buffer w s)
  tfs_write-Filled posix enough =
      let v = a.valid in
      let small : w + s.fs_params.block_size < 2 ^ 64 =
        omega (arith, fits, v.params.block_size_fits) in
      let u : InUse s.fs_params s.freeinode_ts (inode_of s h) =
        subst (InUse s.fs_params s.freeinode_ts) (sym (Held-file a)) (found-InUse v nm a.found) in
      Monad.mono
        (both (tfs_write-Counted posix (pos h) buffer w s v enough small) (
          both (tfs_write-Framed posix h w buffer s v a.below a.is_open u enough small) (
            tfs_write-Wrote posix h w buffer s v a.below a.is_open (Held-IsWithin a) u enough
              small)))
        (λ r t (c, (f, wr)). Wrote-Filled c.0.valid f wr)

pub tfs_close-Stored :
    {pt : Pthread} {nm : Text} {k h : ℕ} {bytes : List ℕ} {s : Fs}
    → IsPosix pt
    → Stored nm k h bytes taken s
    → Returns (λ r t. (r ≡ pos 0) × Stored nm k h bytes free t) (tfs_close pt (pos h) s)
tfs_close-Stored {nm = nm} {k} {h} {bytes} {s} posix a =
    let v = a.valid in
    Monad.mono
      (both (tfs_close-Finished posix (pos h) s v)
        (both (tfs_close-SameStore posix (pos h) s) (tfs_close-freed posix h s a.below a.handle)))
      (λ r t (f, (w, (value, freed))). (
        value,
        record {
          valid = f.valid;
          found = same_data-SameNames v f.valid w.same_params w.same_data nm (pos k) a.found;
          below = rw w.same_params a.below;
          handle = freed;
          bytes_of =
              content-same t k v w.same_params (λ b le. ap (λ m. m b) w.same_data)
                (ap (λ g. g k) w.same_nodes) (found-InUse v nm a.found)
              ∙ a.bytes_of;
        },
      ))
