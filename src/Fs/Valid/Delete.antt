-- ===== src/Fs/Valid/Delete.antt =====
-- `inode_delete` of fs/state.c, and the truncation in `tfs_open`, in a well-formed state.
use ex.Common.{
  ℕ, ◌<◌, ◌≡◌, ◌≢◌, inl, inr, refl, subst, sym, ◌∙◌, ap, arith, true, false, update, update_self,
  update-ne, Bool-cases, ltb, ltb→lt, lt→ltb, if◌then◌else◌,
}
use ex.Common.Int.{ℤ, pos, pos_part, in_range}
use ex.Fs.State.Types.{Inode, AllocationState, free, taken, Fs, is_free}
use ex.Fs.State.Memory.{Memory}
use ex.Fs.State.Monad.{done, Returns, returns}
use ex.Fs.State.Tables.{inode_delete, data_block_free}
use ex.Fs.Ops.Open.{truncate_inode}
use ex.Fs.Valid.{block_no, FileOk, InUse, DirOk, IsValid}
use ex.Fs.Valid.Nodes.{FilesOk-update, RootOk-update, HandlesOk-update}

-- The block states without the block of a file.
abbrev pub without_block : Inode → (ℕ → AllocationState) → ℕ → AllocationState
without_block n bs = if ltb 0 n.i_size then update bs (block_no n) free else bs

abbrev pub deleted : ℕ → Fs → Fs
deleted i s = record s {
  free_blocks = without_block (s.inode_table i) s.free_blocks;
  freeinode_ts = update s.freeinode_ts i free;
}

not_free : (st : AllocationState) → st ≡ taken → is_free st ≡ false
not_free free h = cc
not_free taken h = refl

pub data_block_free-done :
    (s : Fs) (b : ℤ)
    → b ≡ pos (pos_part b)
    → pos_part b < s.fs_params.max_block_count
    → data_block_free b s
      ≡ done tt (record s { free_blocks = update s.free_blocks (pos_part b) free })
unfolding data_block_free
data_block_free-done s b e lt =
    let r : in_range b s.fs_params.max_block_count ≡ true =
      subst (λ z. in_range z s.fs_params.max_block_count ≡ true) (sym e) (lt→ltb _ _ lt) in
    rw r

module _ {s : Fs} {i : ℕ} (v : IsValid s) (u : InUse s.fs_params s.freeinode_ts i) where
  node_ok : FileOk s.fs_params (s.inode_table i)
  node_ok = v.files.file i u

  -- Deleting an inode in use frees it and its block.
  pub inode_delete-done : inode_delete (pos i) s ≡ done tt (deleted i s)
  unfolding inode_delete
  inode_delete-done =
      let valid : ltb i s.fs_params.max_inode_count ≡ true = lt→ltb _ _ u.below in
      let used : is_free (s.freeinode_ts i) ≡ false = not_free _ u.is_taken in
      elim (Bool-cases (ltb 0 (s.inode_table i).i_size)) [
        | inl some_bytes ↦
            let size = ltb→lt _ _ some_bytes in
            rw (
              valid,
              used,
              some_bytes,
              data_block_free-done s (s.inode_table i).i_data_block (node_ok.number size)
                  (node_ok.below size),
            )
        | inr empty ↦ rw (valid, used, empty)
      ]

  -- The blocks of the other files, and that of the root directory, stay taken.
  kept :
      (b : ℕ)
      → (0 < (s.inode_table i).i_size → b ≢ block_no (s.inode_table i))
      → s.free_blocks b ≡ taken
      → without_block (s.inode_table i) s.free_blocks b ≡ taken
  kept b ne t = elim (Bool-cases (ltb 0 (s.inode_table i).i_size)) [
    | inl some_bytes ↦ rw (some_bytes) (
        update-ne s.free_blocks (block_no (s.inode_table i)) free b (ne (ltb→lt _ _ some_bytes))
        ∙ t)
    | inr empty ↦ rw (empty) t
  ]

  kept_other :
      (j : ℕ)
      → j ≢ i
      → InUse s.fs_params s.freeinode_ts j
      → 0 < (s.inode_table j).i_size
      → without_block (s.inode_table i) s.free_blocks (block_no (s.inode_table j)) ≡ taken
  kept_other j ne uj h =
      kept (block_no (s.inode_table j)) (λ h'. v.files.apart j i uj u h h' ne)
        (v.files.owned j uj h)

  kept_root : without_block (s.inode_table i) s.free_blocks 0 ≡ taken
  kept_root = kept 0 (λ h q. node_ok.ne_root h (sym q)) v.root.block_taken

  others :
      (j : ℕ)
      → InUse s.fs_params (update s.freeinode_ts i free) j
      → (j ≢ i) × InUse s.fs_params s.freeinode_ts j
  others j uj =
      let ne : j ≢ i = λ q. absurd (
        cc (uj.is_taken, update_self s.freeinode_ts i free, ap (update s.freeinode_ts i free) q)) in
      (
        ne,
        record {
          ne_root = uj.ne_root;
          below = uj.below;
          is_taken = sym (update-ne s.freeinode_ts i free j ne) ∙ uj.is_taken;
        },
      )

  -- With a directory that no longer refers to the inode, the state is well-formed again.
  pub deleted-IsValid :
      (m : Memory)
      → DirOk s.fs_params (update s.freeinode_ts i free) m
      → IsValid (record (deleted i s) { fs_data = m })
  deleted-IsValid m d = record {
    params = v.params;
    root = record {
      directory = v.root.directory;
      block = v.root.block;
      node_taken = update-ne s.freeinode_ts i free 0 (λ q. u.ne_root (sym q)) ∙ v.root.node_taken;
      block_taken = kept_root;
    };
    files = record {
      file = λ j uj. v.files.file j (others j uj).1;
      owned = λ j uj h. kept_other j (others j uj).0 (others j uj).1 h;
      apart = λ j k uj uk. v.files.apart j k (others j uj).1 (others k uk).1;
    };
    handles = v.handles;
    dir = d;
  }

  -- The state after a truncation.
  pub record Truncated (t : Fs) : Type 0 where
    pub valid : IsValid t
    pub same_params : t.fs_params ≡ s.fs_params
    pub in_use : InUse t.fs_params t.freeinode_ts i
    pub size : (t.inode_table i).i_size ≡ 0
    pub same_data : t.fs_data ≡ s.fs_data
    pub same_handles : t.free_open_file_entries ≡ s.free_open_file_entries
    pub same_entries : t.open_file_table ≡ s.open_file_table
    pub others : (j : ℕ) → j ≢ i → t.inode_table j ≡ s.inode_table j
    pub same_inodes : t.freeinode_ts ≡ s.freeinode_ts
    pub blocks : t.free_blocks ≡ without_block (s.inode_table i) s.free_blocks

  truncated : Inode
  truncated = record (s.inode_table i) { i_size = 0 }

  truncated-FileOk : FileOk s.fs_params truncated
  unfolding truncated
  truncated-FileOk = record {
    is_file = node_ok.is_file;
    size_le = omega arith;
    number = λ h. absurd (omega arith);
    below = λ h. absurd (omega arith);
    ne_root = λ h. absurd (omega arith);
  }

  truncated-IsValid : IsValid (record s {
    inode_table = update s.inode_table i truncated;
    free_blocks = without_block (s.inode_table i) s.free_blocks;
  })
  unfolding truncated
  truncated-IsValid = record {
    params = v.params;
    root = RootOk-update i truncated v.root u.ne_root v.root.node_taken kept_root;
    files = FilesOk-update v.files (record {
      file_new = λ _. truncated-FileOk;
      owned_new = λ _ h. absurd (omega arith);
      stay = λ j ne uj. uj;
      keep = kept_other;
      new_apart = λ j ne _ uj h _. absurd (omega arith);
    });
    handles = HandlesOk-update v.handles i truncated truncated-FileOk;
    dir = v.dir;
  }

  -- A truncation returns, and frees the file's block.
  pub truncate_inode-Truncated : Returns (λ _ t. Truncated t) (truncate_inode i s)
  unfolding truncate_inode truncated
  truncate_inode-Truncated = elim (Bool-cases (ltb 0 (s.inode_table i).i_size)) [
    | inl some_bytes ↦
        let size = ltb→lt _ _ some_bytes in
        rw
          (
            some_bytes,
            data_block_free-done s (s.inode_table i).i_data_block (node_ok.number size)
                (node_ok.below size),
          )
          (returns (record {
            valid = rw (some_bytes) at truncated-IsValid;
            same_params = refl;
            in_use = u;
            size = ap (λ (n : Inode). n.i_size) (update_self s.inode_table i truncated);
            same_data = refl;
            same_handles = refl;
            same_entries = refl;
            others = λ j ne. update-ne s.inode_table i truncated j ne;
            same_inodes = refl;
            blocks = rw some_bytes refl;
          }))
    | inr empty ↦ rw empty (
        returns (record {
          valid = v;
          same_params = refl;
          in_use = u;
          size = ground arith;
          same_data = refl;
          same_handles = refl;
          same_entries = refl;
          others = λ j ne. refl;
          same_inodes = refl;
          blocks = rw empty refl;
        }))
  ]
