-- ===== src/Fs/Safe/Block.antt =====
-- The copy into a file's block at the end of `tfs_write`, in a well-formed state.
use ex.Common.{
  ℕ, ◌+◌, ◌*◌, ◌<◌, ◌≤◌, ◌≡◌, ◌≢◌, inl, true, List, length, take, length-take, arith, leb, lt→ltb,
  update, update_self,
}
use ex.Common.Int.{pos, to_ssize}
use ex.Fs.State.Types.{Fs, Inode, t_file, taken}
use ex.Fs.State.Memory.{write_bytes}
use ex.Fs.State.Memory.Bytes.{write_bytes-outside}
use ex.Fs.State.Monad.{done}
use ex.Fs.State.Tables.{data_block_get}
use ex.Fs.Ops.Mutex.{Pthread, IsPosix}
use ex.Fs.Ops.Transfer.{add_size, memcpy_in, advance, grow, write_block, data_bytes}
use ex.Fs.Valid.{IsValid, InUse, FileOk, block_no}
use ex.Fs.Valid.Dir.{DirOk-Agree}
use ex.Fs.Valid.Nodes.{FilesOk-update, RootOk-update, HandlesOk-update, HandlesOk-entry}
use ex.Fs.Safe.Clip.{add_size_small, mul-add_le, le_mul}
use ex.Fs.Safe.Finish.{unlocked, unlock_return-done}

-- The call of `data_block_get` for a valid block.
pub data_block_get-done :
    (s : Fs) (b : ℕ)
    → b < s.fs_params.max_block_count
    → data_block_get (pos b) s ≡ done (b * s.fs_params.block_size) s
unfolding data_block_get
data_block_get-done s b h = rw (lt→ltb _ _ h)

-- Inode `k` may hold bytes in block `b`: the block is not the root directory's, and if the inode is
-- in use, the block is taken and no other file's.
pub record CanHold (s : Fs) (k b : ℕ) : Type 0 where
  pub number : (s.inode_table k).i_data_block ≡ pos b
  pub below : b < s.fs_params.max_block_count
  pub ne_root : b ≢ 0
  pub is_file : (s.inode_table k).i_node_type ≡ t_file
  pub size_le : (s.inode_table k).i_size ≤ s.fs_params.block_size
  pub inode_ne_root : k ≢ 0
  pub is_taken : InUse s.fs_params s.freeinode_ts k → s.free_blocks b ≡ taken
  pub apart :
      InUse s.fs_params s.freeinode_ts k
      → (j : ℕ) → j ≢ k
      → InUse s.fs_params s.freeinode_ts j
      → 0 < (s.inode_table j).i_size
      → b ≢ block_no (s.inode_table j)

-- The state after the copy of `bytes` at offset `o` of block `b`.
abbrev pub written : Fs → (h k b o : ℕ) → List ℕ → Fs
written s h k b o bytes = record s {
  fs_data = write_bytes s.fs_data (b * s.fs_params.block_size + o) bytes;
  open_file_table =
      update s.open_file_table h (record (s.open_file_table h) { of_offset = o + length bytes });
  inode_table =
      update s.inode_table k
        (record (s.inode_table k) { i_size = grow (s.inode_table k).i_size (o + length bytes) });
}

module _ {s : Fs} (h n : ℕ) {k b : ℕ} (buffer : List ℕ) (v : IsValid s) (c : CanHold s k b)
    (fits : (s.open_file_table h).of_offset + n ≤ s.fs_params.block_size)
    (enough : n ≤ length buffer) where
  abbrev o : ℕ
  o = (s.open_file_table h).of_offset

  abbrev bytes : List ℕ
  bytes = take n buffer

  block_found :
      data_block_get (s.inode_table k).i_data_block s ≡ done (b * s.fs_params.block_size) s
  block_found = rw c.number (data_block_get-done s b c.below)

  in_memory : leb (b * s.fs_params.block_size + o + n) (data_bytes s.allocated) ≡ true
  in_memory =
      let e = v.params.same in
      let below = mul-add_le b s.fs_params.max_block_count s.fs_params.block_size c.below in
      rw e (ground arith)

  enough_test : leb n (length buffer) ≡ true
  enough_test = ground arith

  length-bytes : length bytes ≡ n
  length-bytes = length-take n buffer enough

  moved : add_size o n ≡ o + length bytes
  moved = rw length-bytes (add_size_small o n (omega (arith, v.params.block_size_fits)))

  -- The copy does not fault, and does these three writes and no other.
  pub write_block-done :
      {pt : Pthread}
      → IsPosix pt
      → write_block pt h k buffer n s ≡ done (to_ssize n) (unlocked pt (written s h k b o bytes))
  unfolding write_block memcpy_in
  write_block-done {pt} posix = rw (
    block_found,
    in_memory,
    enough_test,
    update_self s.open_file_table h (advance n (s.open_file_table h)),
    moved,
    unlock_return-done posix,
  )

  grown : Inode
  grown = record (s.inode_table k) { i_size = grow (s.inode_table k).i_size (o + length bytes) }

  grown-FileOk : FileOk s.fs_params grown
  unfolding grown
  grown-FileOk = record {
    is_file = c.is_file;
    size_le = ground (arith, length-bytes, c.size_le, fits);
    number = λ _. rw c.number;
    below = λ _. rw c.number c.below;
    ne_root = λ _. rw c.number c.ne_root;
  }

  -- The bytes of the root directory's block stay.
  pub directory_same :
      (q : ℕ)
      → q < s.fs_params.block_size
      → write_bytes s.fs_data (b * s.fs_params.block_size + o) bytes q ≡ s.fs_data q
  directory_same q lt =
      let past = le_mul b s.fs_params.block_size (omega (arith, c.ne_root)) in
      write_bytes-outside s.fs_data (b * s.fs_params.block_size + o) bytes q
        (inl (omega (arith, past)))

  -- After the copy the state is well-formed.
  pub written-IsValid :
      h < s.fs_params.max_open_files_count
      → s.free_open_file_entries h ≡ taken
      → IsValid (written s h k b o bytes)
  unfolding grown
  written-IsValid lt t =
      let e = v.handles.handle h lt t in
      let handles =
        HandlesOk-entry v.handles h (record (s.open_file_table h) { of_offset = o + length bytes })
          (record {
            number = e.number;
            below = e.below;
            ne_root = e.ne_root;
            offset_le = rw length-bytes fits;
            file = e.file;
          }) in
      record {
        params = v.params;
        root = RootOk-update k grown v.root c.inode_ne_root v.root.node_taken v.root.block_taken;
        files = FilesOk-update v.files (record {
          file_new = λ _. grown-FileOk;
          owned_new = λ u _. rw c.number (c.is_taken u);
          stay = λ j ne u. u;
          keep = λ j ne u p. v.files.owned j u p;
          new_apart = λ j ne uk uj _ p. rw c.number (c.apart uk j ne uj p);
        });
        handles = HandlesOk-update handles k grown grown-FileOk;
        dir = DirOk-Agree _ v.dir directory_same;
      }
