-- ===== src/Fs/State/Types.antt =====
-- The types of fs/state.h and fs/operations.h, and the static variables of fs/state.c and
-- fs/operations.c as one record. An array is a total map from indices; the number of its cells is
-- the matching field of the parameters that it was allocated with.
use ex.Common.{ℕ, Bool, Option, ◌/◌}
use ex.Common.Int.{ℤ}

-- `tfs_params`
pub record TfsParams : Type 0 where
  pub max_inode_count : ℕ
  pub max_block_count : ℕ
  pub max_open_files_count : ℕ
  pub block_size : ℕ

pub data InodeType : Type 0 where
  t_file t_directory : InodeType

-- `inode_t`
pub record Inode : Type 0 where
  pub i_node_type : InodeType
  pub i_size : ℕ
  pub i_data_block : ℤ

pub data AllocationState : Type 0 where
  free taken : AllocationState

-- `open_file_entry_t`
pub record OpenFileEntry : Type 0 where
  pub of_inumber : ℤ
  pub of_offset : ℕ

-- The static variables. `allocated` is `none` while `inode_table` is NULL, and otherwise holds the
-- parameters for which the arrays were allocated; `locked` says that `g_library_mutex` is held.
pub record Fs : Type 0 where
  pub fs_params : TfsParams
  pub allocated : Option TfsParams
  pub inode_table : ℕ → Inode
  pub freeinode_ts : ℕ → AllocationState
  pub fs_data : ℕ → ℕ
  pub free_blocks : ℕ → AllocationState
  pub open_file_table : ℕ → OpenFileEntry
  pub free_open_file_entries : ℕ → AllocationState
  pub locked : Bool

-- `MAX_FILE_NAME`
abbrev pub max_file_name : ℕ
max_file_name = 40

-- `ROOT_DIR_INUM`
abbrev pub root_dir_inum : ℕ
root_dir_inum = 0

-- `sizeof(dir_entry_t)`: the name and a four-byte int
abbrev pub dir_entry_size : ℕ
dir_entry_size = 44

-- `MAX_DIR_ENTRIES`
unfoldable pub max_dir_entries : Fs → ℕ
max_dir_entries s = s.fs_params.block_size / dir_entry_size

abbrev pub is_free : AllocationState → Bool
is_free free = Bool.true
is_free taken = Bool.false
