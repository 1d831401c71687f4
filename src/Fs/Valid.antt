-- ===== src/Fs/Valid.antt =====
-- The well-formed states of the file system of fs/state.c. Each part speaks of the components of
-- the state that it names and of no other, so that a change of the others leaves it as it is.
-- The root directory is inode 0, and its entries are in block 0.
pub mod Entries
pub mod Dir
pub mod Fill
pub mod Nodes
pub mod Alloc
pub mod Create
pub mod Delete
pub mod Search
pub mod Tight
use ex.Common.{ℕ, ◌+◌, ◌-◌, ◌*◌, ◌/◌, ◌^◌, ◌≤◌, ◌<◌, ◌≡◌, ◌≢◌, true, Option, some}
use ex.Common.Int.{ℤ, pos, minus_one, pos_part}
use ex.Fs.State.Types.{
  TfsParams, InodeType, Inode, t_file, t_directory, AllocationState, taken, OpenFileEntry, Fs,
  dir_entry_size, max_file_name,
}
use ex.Fs.State.Memory.{Memory, Text, IsText, load_int}
use ex.Fs.State.Dir.{d_name, d_inumber, is_named}

-- The parameters are those of the allocated arrays, and indices fit an int.
pub record ParamsOk (p : TfsParams) (allocated : Option TfsParams) : Type 0 where
  pub same : allocated ≡ some p
  pub some_inode : 0 < p.max_inode_count
  pub inodes_int : p.max_inode_count ≤ 2 ^ 31
  pub blocks_int : p.max_block_count ≤ 2 ^ 31
  pub files_int : p.max_open_files_count ≤ 2 ^ 31
  pub some_block : 0 < p.max_block_count
  pub block_size_fits : p.block_size < 2 ^ 31

abbrev pub block_no : Inode → ℕ
block_no n = pos_part n.i_data_block

-- An inode that describes a regular file.
pub record FileOk (p : TfsParams) (n : Inode) : Type 0 where
  pub is_file : n.i_node_type ≡ t_file
  pub size_le : n.i_size ≤ p.block_size
  pub number : 0 < n.i_size → n.i_data_block ≡ pos (block_no n)
  pub below : 0 < n.i_size → block_no n < p.max_block_count
  pub ne_root : 0 < n.i_size → block_no n ≢ 0

pub record RootOk (nodes : ℕ → Inode) (node_states block_states : ℕ → AllocationState)
    : Type 0 where
  pub directory : (nodes 0).i_node_type ≡ t_directory
  pub block : (nodes 0).i_data_block ≡ pos 0
  pub node_taken : node_states 0 ≡ taken
  pub block_taken : block_states 0 ≡ taken

-- The inode `i` is in use for a file.
pub record InUse (p : TfsParams) (node_states : ℕ → AllocationState) (i : ℕ) : Type 0 where
  pub ne_root : i ≢ 0
  pub below : i < p.max_inode_count
  pub is_taken : node_states i ≡ taken

-- Every file in use is well-formed, its block is taken, and no two share a block.
pub record FilesOk (p : TfsParams) (nodes : ℕ → Inode)
    (node_states block_states : ℕ → AllocationState) : Type 0 where
  pub file : (i : ℕ) → InUse p node_states i → FileOk p (nodes i)
  pub owned :
      (i : ℕ)
      → InUse p node_states i
      → 0 < (nodes i).i_size
      → block_states (block_no (nodes i)) ≡ taken
  pub apart :
      (i j : ℕ)
      → InUse p node_states i
      → InUse p node_states j
      → 0 < (nodes i).i_size
      → 0 < (nodes j).i_size
      → i ≢ j
      → block_no (nodes i) ≢ block_no (nodes j)

-- An open file entry refers to an inode of a file, which may have been unlinked meanwhile.
pub record HandleOk (p : TfsParams) (nodes : ℕ → Inode) (e : OpenFileEntry) : Type 0 where
  pub number : e.of_inumber ≡ pos (pos_part e.of_inumber)
  pub below : pos_part e.of_inumber < p.max_inode_count
  pub ne_root : pos_part e.of_inumber ≢ 0
  pub offset_le : e.of_offset ≤ p.block_size
  pub file : FileOk p (nodes (pos_part e.of_inumber))

pub record HandlesOk (p : TfsParams) (nodes : ℕ → Inode) (entries : ℕ → OpenFileEntry)
    (entry_states : ℕ → AllocationState) : Type 0 where
  pub handle :
      (h : ℕ) → h < p.max_open_files_count → entry_states h ≡ taken → HandleOk p nodes (entries h)

-- The inumber in entry `e` of the root directory.
abbrev pub entry_inumber : Memory → ℕ → ℤ
entry_inumber m e = load_int m (d_inumber 0 e)

-- The entry `e` refers to a file in use, and its name is a C string that is not empty.
pub record EntryOk (p : TfsParams) (node_states : ℕ → AllocationState) (m : Memory) (e : ℕ)
    : Type 0 where
  pub number : entry_inumber m e ≡ pos (pos_part (entry_inumber m e))
  pub in_use : InUse p node_states (pos_part (entry_inumber m e))
  pub ends : m (d_name 0 e + 39) ≡ 0

abbrev pub entries_of : TfsParams → ℕ
entries_of p = p.block_size / dir_entry_size

-- The entries in use are well-formed, and no inumber and no name stands twice. From entry `mark` on
-- no entry has been used yet; an unused entry below it has an empty name.
pub record DirOk (p : TfsParams) (node_states : ℕ → AllocationState) (m : Memory) : Type 0 where
  pub entry : (e : ℕ) → e < entries_of p → entry_inumber m e ≢ minus_one → EntryOk p node_states m e
  pub numbers_apart :
      (d e : ℕ)
      → d < entries_of p
      → e < entries_of p
      → entry_inumber m d ≢ minus_one
      → entry_inumber m d ≡ entry_inumber m e
      → d ≡ e
  pub names_apart :
      (d e : ℕ) (s : Text)
      → IsText s
      → d < entries_of p
      → e < entries_of p
      → is_named 0 s m d ≡ true
      → is_named 0 s m e ≡ true
      → d ≡ e
  pub mark : ℕ
  pub fresh : (e : ℕ) → e < entries_of p → mark ≤ e → entry_inumber m e ≡ minus_one
  pub cleared :
      (e : ℕ) → e < mark → e < entries_of p → entry_inumber m e ≡ minus_one → m (d_name 0 e) ≡ 0

pub record IsValid (s : Fs) : Type 0 where
  pub params : ParamsOk s.fs_params s.allocated
  pub root : RootOk s.inode_table s.freeinode_ts s.free_blocks
  pub files : FilesOk s.fs_params s.inode_table s.freeinode_ts s.free_blocks
  pub handles : HandlesOk s.fs_params s.inode_table s.open_file_table s.free_open_file_entries
  pub dir : DirOk s.fs_params s.freeinode_ts s.fs_data
