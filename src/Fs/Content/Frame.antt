-- ===== src/Fs/Content/Frame.antt =====
-- What `tfs_write` of fs/operations.c leaves as it is.
use native.Mathlib.Decide.{ℕ_discrete}
use ex.Common.{
  ℕ, Bool, ◌*◌, ◌+◌, ◌^◌, ◌<◌, ◌≤◌, ◌≡◌, ◌≢◌, inl, inr, refl, ap, some, List, length, take, arith,
  Bool-cases, ltb, ◌==◌, update_self, update-ne,
}
use ex.Common.Int.{pos, minus_one}
use ex.Fs.State.Types.{Fs, taken, OpenFileEntry, Inode}
use ex.Fs.State.Monad
use ex.Fs.State.Monad.{done, Returns, returns}
use ex.Fs.State.Tables.{inode_get}
use ex.Fs.Ops.Mutex.{Pthread, IsPosix}
use ex.Fs.Ops.Transfer.{clip_write, write_block, write_new, write_entry, tfs_write, grow}
use ex.Fs.Valid.{IsValid, InUse, FileOk, block_no}
use ex.Fs.Valid.Alloc.{Allocated-then, data_block_alloc-Allocated}
use ex.Fs.Safe.Clip.{clip_write_lem}
use ex.Fs.Safe.Finish.{IsValid-locked, locked_by, unlock_return-done, with_lock-done}
use ex.Fs.State.Memory.{write_bytes}
use ex.Fs.Safe.Block.{directory_same, CanHold, write_block-done, written}
use ex.Fs.Safe.Existing.{inode_get-done}
use ex.Fs.Safe.Read.{inode_of}
use ex.Fs.Safe.Room.{handle-CanHold, with_block-IsValid, with_block-CanHold, with_block}
use ex.Fs.Content.Read.{get_open_file_entry-open}

-- The parameters, the inodes in use and the open handles are the same, the entries of the other
-- handles are, and the handle's own entry still has its inode. No file has become shorter.
pub record Framed (s : Fs) (h : ℕ) (t : Fs) : Type 0 where
  pub same_params : t.fs_params ≡ s.fs_params
  pub same_inodes : t.freeinode_ts ≡ s.freeinode_ts
  pub same_handles : t.free_open_file_entries ≡ s.free_open_file_entries
  pub other_entries : (g : ℕ) → g ≢ h → t.open_file_table g ≡ s.open_file_table g
  pub same_inumber : (t.open_file_table h).of_inumber ≡ (s.open_file_table h).of_inumber
  pub directory : (a : ℕ) → a < s.fs_params.block_size → t.fs_data a ≡ s.fs_data a
  pub sizes : (j : ℕ) → (s.inode_table j).i_size ≤ (t.inode_table j).i_size

-- Only the mutex has changed.
Framed-locked : {s : Fs} (h : ℕ) (b : Bool) → Framed s h (record s { locked = b })
Framed-locked h b = record {
  same_params = refl;
  same_inodes = refl;
  same_handles = refl;
  other_entries = λ g ne. refl;
  same_inumber = refl;
  directory = λ a lt. refl;
  sizes = λ j. omega arith;
}

Framed-of_locked :
    {s t : Fs} (h : ℕ) (b : Bool) → Framed (record s { locked = b }) h t → Framed s h t
Framed-of_locked h b f = record {
  same_params = f.same_params;
  same_inodes = f.same_inodes;
  same_handles = f.same_handles;
  other_entries = f.other_entries;
  same_inumber = f.same_inumber;
  directory = f.directory;
  sizes = f.sizes;
}

Framed-written :
    (s : Fs) (h k b o : ℕ) (bytes : List ℕ) (l : Bool)
    → ((a : ℕ)
        → a < s.fs_params.block_size
        → write_bytes s.fs_data (b * s.fs_params.block_size + o) bytes a ≡ s.fs_data a)
    → Framed s h (record (written s h k b o bytes) { locked = l })
Framed-written s h k b o bytes l same = record {
  same_params = refl;
  same_inodes = refl;
  same_handles = refl;
  other_entries = λ g ne. update-ne s.open_file_table h _ g ne;
  same_inumber = ap (λ (e : OpenFileEntry). e.of_inumber) (update_self s.open_file_table h _);
  directory = same;
  sizes = λ j. elim (ℕ_discrete j k) [
    | yes q ↦
        rw
          (
            q,
            update_self s.inode_table k (record (s.inode_table k) {
              i_size = grow (s.inode_table k).i_size (o + length bytes);
            }),
          )
          (ground arith)
    | no ne ↦
        rw
          (update-ne s.inode_table k
            (record (s.inode_table k) { i_size = grow (s.inode_table k).i_size (o + length bytes) })
            j ne)
          (omega arith)
  ];
}

Framed-with_block : {s t : Fs} (h k b : ℕ) → Framed (with_block k b s) h t → Framed s h t
Framed-with_block {s} {t} h k b f = record {
  same_params = f.same_params;
  same_inodes = f.same_inodes;
  same_handles = f.same_handles;
  other_entries = f.other_entries;
  same_inumber = f.same_inumber;
  directory = f.directory;
  sizes = λ j. elim (ℕ_discrete j k) [
    | yes q ↦
        let e =
          ap (λ (n : Inode). n.i_size)
            (update_self s.inode_table k (record (s.inode_table k) { i_data_block = pos b })) in
        rw q (omega (arith, e, f.sizes k))
    | no ne ↦
        let e =
          ap (λ (n : Inode). n.i_size)
            (update-ne s.inode_table k (record (s.inode_table k) { i_data_block = pos b }) j ne) in
        omega (arith, e, f.sizes j)
  ];
}

module _ {pt : Pthread} (posix : IsPosix pt) where
  write_block-Framed :
      {s : Fs} (h b n : ℕ) (buffer : List ℕ)
      → IsValid s
      → CanHold s (inode_of s h) b
      → (s.open_file_table h).of_offset + n ≤ s.fs_params.block_size
      → n ≤ length buffer
      → Returns (λ r t. Framed s h t) (write_block pt h (inode_of s h) buffer n s)
  write_block-Framed {s} h b n buffer v c fits enough =
      rw (write_block-done h n buffer v c fits enough posix) (
        returns (
          Framed-written s h (inode_of s h) b (s.open_file_table h).of_offset (take n buffer) _
            (directory_same h n buffer v c fits enough)))

  write_new-Framed :
      {s : Fs} (h n : ℕ) (buffer : List ℕ)
      → IsValid s
      → FileOk s.fs_params (s.inode_table (inode_of s h))
      → InUse s.fs_params s.freeinode_ts (inode_of s h)
      → (s.inode_table (inode_of s h)).i_size ≡ 0
      → (s.open_file_table h).of_offset + n ≤ s.fs_params.block_size
      → n ≤ length buffer
      → Returns (λ r t. Framed s h t) (write_new pt h (inode_of s h) buffer n s)
  unfolding write_new
  write_new-Framed {s} h n buffer v f u empty fits enough =
      Allocated-then _ (Returns (λ r t. Framed s h t))
        (data_block_alloc-Allocated s v.params.blocks_int)
        (λ full. rw (unlock_return-done posix minus_one s) (returns (Framed-locked h _)))
        (λ b first.
          Monad.mono
            (write_block-Framed h b n buffer (with_block-IsValid v f u.ne_root empty first)
              (with_block-CanHold v f u.ne_root empty first) fits enough)
            (λ r t w. Framed-with_block h (inode_of s h) b w))

  write_entry-Framed :
      {s : Fs} (h w : ℕ) (buffer : List ℕ)
      → IsValid s
      → h < s.fs_params.max_open_files_count
      → s.free_open_file_entries h ≡ taken
      → InUse s.fs_params s.freeinode_ts (inode_of s h)
      → w ≤ length buffer
      → w + s.fs_params.block_size < 2 ^ 64
      → Returns (λ r t. Framed s h t) (write_entry pt buffer w (some h) s)
  unfolding write_entry
  write_entry-Framed {s} h w buffer v lt t u enough small =
      let e = v.handles.handle h lt t in
      let k = inode_of s h in
      let found : inode_get (s.open_file_table h).of_inumber s ≡ done k s =
        rw e.number (inode_get-done s k e.below) in
      let n = clip_write s.fs_params.block_size (s.open_file_table h).of_offset w in
      let cut = clip_write_lem _ (s.open_file_table h).of_offset w e.offset_le small in
      let le : n ≤ length buffer = omega (arith, cut, enough) in
      let fits : (s.open_file_table h).of_offset + n ≤ s.fs_params.block_size =
        omega (arith, cut, e.offset_le) in
      rw found (elim (Bool-cases (ltb 0 n)) [
        | inl some_bytes ↦ rw some_bytes (elim (Bool-cases ((s.inode_table k).i_size == 0)) [
          | inl z ↦ rw z (write_new-Framed h n buffer v e.file u (ground arith) fits le)
          | inr z ↦ rw z (
              write_block-Framed h (block_no (s.inode_table k)) n buffer v
                (handle-CanHold k v e.file e.ne_root (ground arith)) fits le)
        ])
        | inr nothing ↦ rw (nothing, unlock_return-done posix) (returns (Framed-locked h _))
      ])

  pub tfs_write-Framed :
      (h w : ℕ) (buffer : List ℕ) (s : Fs)
      → IsValid s
      → h < s.fs_params.max_open_files_count
      → s.free_open_file_entries h ≡ taken
      → InUse s.fs_params s.freeinode_ts (inode_of s h)
      → w ≤ length buffer
      → w + s.fs_params.block_size < 2 ^ 64
      → Returns (λ r t. Framed s h t) (tfs_write pt (pos h) buffer w s)
  unfolding tfs_write
  tfs_write-Framed h w buffer s v lt t u enough small =
      rw (with_lock-done posix _ s, get_open_file_entry-open (locked_by pt s) h lt t)
        (Monad.mono (write_entry-Framed h w buffer (IsValid-locked _ v) lt t u enough small)
          (λ r t. Framed-of_locked h (locked_by pt s).locked))
