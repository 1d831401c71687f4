-- ===== src/Fs/Safe/Init.antt =====
-- `tfs_init` of fs/operations.c, on a program that has no file system yet.
use ex.Common.{
  ℕ, ◌*◌, ◌^◌, ◌<◌, ◌≤◌, ◌≡◌, ◌≢◌, refl, ◌∙◌, ap, Bool, true, Option, none, some, arith, lt→ltb,
  update, update_self, update-ne,
}
use ex.Common.Int.{pos, minus_one, to_int_small}
use ex.Common.First.{first_index, first_index-of_first}
use ex.Fs.State.Types.{
  TfsParams, Inode, t_directory, AllocationState, free, taken, Fs, is_free, max_dir_entries,
}
use ex.Fs.State.Monad.{done, Returns, returns, bind, mono}
use ex.Fs.State.Tables.{
  take_inode, take_block, inode_alloc, inode_create, create_node, create_directory,
  data_block_alloc, label_empty, data_block_get,
}
use ex.Fs.State.Setup.{Malloc, all_ok, free_below, state_init, with_memory}
use ex.Fs.Ops.Init.{tfs_init, choose_params}
use ex.Fs.Valid.{IsValid, InUse, entry_inumber, entries_of}
use ex.Fs.Valid.Dir.{named_used}
use ex.Fs.Valid.Tight.{IsTight}
use ex.Fs.Safe.Label.{label_empty-unused}

-- A file system without files: no block but the root directory's is taken, no entry of the directory
-- is used, no handle is open, and no inode is in use.
pub record IsEmpty (t : Fs) : Type 0 where
  pub valid : IsValid t
  pub blocks : (b : ℕ) → b < t.fs_params.max_block_count → b ≢ 0 → t.free_blocks b ≡ free
  pub entries : (e : ℕ) → e < entries_of t.fs_params → entry_inumber t.fs_data e ≡ minus_one
  pub handles : (h : ℕ) → h < t.fs_params.max_open_files_count → t.free_open_file_entries h ≡ free
  pub no_files : (i : ℕ) → ¬ InUse t.fs_params t.freeinode_ts i

-- The parameters for which the file system works: there is an inode and a block for the root
-- directory, and indices fit an int.
pub record IsUsable (p : TfsParams) : Type 0 where
  pub some_inode : 0 < p.max_inode_count
  pub inodes_int : p.max_inode_count ≤ 2 ^ 31
  pub blocks_int : p.max_block_count ≤ 2 ^ 31
  pub files_int : p.max_open_files_count ≤ 2 ^ 31
  pub some_block : 0 < p.max_block_count
  pub block_size_fits : p.block_size < 2 ^ 31

first_at_zero : (n : ℕ) (test : ℕ → Bool) → 0 < n → test 0 ≡ true → first_index n test ≡ some 0
first_at_zero n test h q =
    first_index-of_first n test
      (record { below = h; passes = q; before = λ i lt. absurd (omega arith) })

module _ (heap : Malloc) (p : TfsParams) (u : IsUsable p) (s : Fs) where
  -- The state after `state_init`.
  abbrev started : Fs
  started = record (with_memory p heap s) {
    allocated = some p;
    freeinode_ts = free_below p.max_inode_count heap.inode_states;
    free_blocks = free_below p.max_block_count heap.block_states;
    free_open_file_entries = free_below p.max_open_files_count heap.entry_states;
  }

  free_below-free : (n : ℕ) (ts : ℕ → AllocationState) (i : ℕ) → i < n → free_below n ts i ≡ free
  unfolding free_below
  free_below-free n ts i h = rw (lt→ltb _ _ h)

  alloc_inode : inode_alloc started ≡ done (pos 0) (take_inode 0 started)
  unfolding inode_alloc
  alloc_inode = rw (
    first_at_zero p.max_inode_count (λ i. is_free (started.freeinode_ts i)) u.some_inode
        (ap is_free (free_below-free p.max_inode_count heap.inode_states 0 u.some_inode)),
    to_int_small 0 (omega arith),
  )

  alloc_block :
      (nodes : ℕ → Inode)
      → data_block_alloc (record (take_inode 0 started) { inode_table = nodes })
        ≡ done (pos 0) (take_block 0 (record (take_inode 0 started) { inode_table = nodes }))
  unfolding data_block_alloc
  alloc_block nodes = rw (
    first_at_zero p.max_block_count (λ i. is_free (started.free_blocks i)) u.some_block
        (ap is_free (free_below-free p.max_block_count heap.block_states 0 u.some_block)),
    to_int_small 0 (omega arith),
  )

  root_node : Inode
  root_node = record { i_node_type = t_directory; i_size = p.block_size; i_data_block = pos 0 }

  unused : (i : ℕ) → ¬ InUse p (update started.freeinode_ts 0 taken) i
  unused i w = cc (
    w.is_taken,
    update-ne started.freeinode_ts 0 taken i w.ne_root,
    free_below-free p.max_inode_count heap.inode_states i w.below,
  )

  empty :
      (e : ℕ)
      → e < entries_of p
      → entry_inumber (label_empty (entries_of p) 0 0 heap.bytes) e ≡ minus_one
  empty e lt = label_empty-unused (entries_of p) 0 e heap.bytes (omega arith) (omega arith)

  created_root-IsValid :
      (nodes : ℕ → Inode)
      → (nodes 0).i_node_type ≡ t_directory
      → (nodes 0).i_data_block ≡ pos 0
      → IsValid (record (take_block 0 (take_inode 0 started)) {
        inode_table = nodes;
        fs_data = label_empty (entries_of p) 0 0 heap.bytes;
      })
  created_root-IsValid nodes dir block = record {
    params = record {
      same = refl;
      some_inode = u.some_inode;
      inodes_int = u.inodes_int;
      blocks_int = u.blocks_int;
      files_int = u.files_int;
      some_block = u.some_block;
      block_size_fits = u.block_size_fits;
    };
    root = record {
      directory = dir;
      block = block;
      node_taken = update_self started.freeinode_ts 0 taken;
      block_taken = update_self started.free_blocks 0 taken;
    };
    files = record {
      file = λ i w. absurd (unused i w);
      owned = λ i w _. absurd (unused i w);
      apart = λ i j w _ _ _ _ _. unused i w;
    };
    handles = record {
      handle =
          λ h lt t. absurd (cc (t, free_below-free p.max_open_files_count heap.entry_states h lt));
    };
    dir = record {
      entry = λ e lt w. absurd (w (empty e lt));
      numbers_apart = λ d e ld le w q. absurd (w (empty d ld));
      names_apart = λ d e t _ ld le pd pe. absurd (named_used t _ d pd (empty d ld));
      mark = 0;
      fresh = λ e lt _. empty e lt;
      cleared = λ e lt. absurd (omega arith);
    };
  }

  other_blocks :
      (b : ℕ) → b < p.max_block_count → b ≢ 0 → update started.free_blocks 0 taken b ≡ free
  other_blocks b lt ne =
      update-ne started.free_blocks 0 taken b ne
      ∙ free_below-free p.max_block_count heap.block_states b lt

  created_root-IsEmpty :
      (nodes : ℕ → Inode)
      → (nodes 0).i_node_type ≡ t_directory
      → (nodes 0).i_data_block ≡ pos 0
      → IsEmpty (record (take_block 0 (take_inode 0 started)) {
        inode_table = nodes;
        fs_data = label_empty (entries_of p) 0 0 heap.bytes;
      })
  created_root-IsEmpty nodes dir block = record {
    valid = created_root-IsValid nodes dir block;
    blocks = other_blocks;
    entries = empty;
    handles = λ h lt. free_below-free p.max_open_files_count heap.entry_states h lt;
    no_files = unused;
  }

  create_root : Returns (λ r t. (r ≡ pos 0) × IsEmpty t) (inode_create t_directory started)
  unfolding inode_create create_node create_directory data_block_get max_dir_entries
  create_root =
      let z : 0 * p.block_size ≡ 0 = omega arith in
      rw (alloc_inode, alloc_block, lt→ltb _ _ u.some_block, z)
        (returns (refl, created_root-IsEmpty _ refl refl))

  pub tfs_init-IsEmpty :
      (given : Option TfsParams)
      → choose_params given ≡ p
      → s.allocated ≡ none
      → all_ok heap ≡ true
      → Returns (λ r t. (r ≡ pos 0) × IsEmpty t) (tfs_init heap given s)
  unfolding tfs_init state_init
  tfs_init-IsEmpty given q fresh ok =
      let table : heap.inode_table_ok ≡ true = ground arith in
      rw (q, fresh, ok, table) (bind create_root (λ r t (e, v). rw e (returns (refl, v))))

  -- No block is lost in a new file system.
  pub tfs_init-IsTight :
      (given : Option TfsParams)
      → choose_params given ≡ p
      → s.allocated ≡ none
      → all_ok heap ≡ true
      → Returns (λ r t. IsTight t) (tfs_init heap given s)
  tfs_init-IsTight given q fresh ok =
      mono (tfs_init-IsEmpty given q fresh ok)
        (λ r t w b lt ne h. absurd (cc (h, w.1.blocks b lt ne)))

  -- On a program without a file system, if malloc succeeds for every table and the parameters allow a
  -- root directory and indices that fit an int, `tfs_init` returns 0 and leaves a well-formed state.
  pub tfs_init-IsValid :
      (given : Option TfsParams)
      → choose_params given ≡ p
      → s.allocated ≡ none
      → all_ok heap ≡ true
      → Returns (λ r t. (r ≡ pos 0) × IsValid t) (tfs_init heap given s)
  tfs_init-IsValid given q fresh ok =
      mono (tfs_init-IsEmpty given q fresh ok) (λ r t (e, w). (e, w.valid))
