-- ===== src/Fs/State/Setup.antt =====
-- fs/state.c: `state_init` and `state_destroy`.
use ex.Common.{ℕ, Bool, true, false, not, ◌&&◌, Option, none, some, ltb, if◌then◌else◌}
use ex.Common.Int.{ℤ, pos, minus_one}
use ex.Fs.State.Types.{TfsParams, Inode, AllocationState, free, OpenFileEntry, Fs}
use ex.Fs.State.Monad.{M, done}

-- What the six calls of `malloc` return: whether each succeeds, and what the new memory holds.
pub record Malloc : Type 0 where
  pub inode_table_ok : Bool
  pub freeinode_ts_ok : Bool
  pub fs_data_ok : Bool
  pub free_blocks_ok : Bool
  pub open_file_table_ok : Bool
  pub free_open_file_entries_ok : Bool
  pub inodes : ℕ → Inode
  pub inode_states : ℕ → AllocationState
  pub bytes : ℕ → ℕ
  pub block_states : ℕ → AllocationState
  pub entries : ℕ → OpenFileEntry
  pub entry_states : ℕ → AllocationState

-- `none` stands for a table pointer that is NULL.
abbrev pub table_pointer : Bool → TfsParams → Option TfsParams
table_pointer true p = some p
table_pointer false p = none

-- The state after the six assignments, before the loops.
abbrev pub with_memory : TfsParams → Malloc → Fs → Fs
with_memory params heap s = record {
  fs_params = params;
  allocated = table_pointer heap.inode_table_ok params;
  inode_table = heap.inodes;
  freeinode_ts = heap.inode_states;
  fs_data = heap.bytes;
  free_blocks = heap.block_states;
  open_file_table = heap.entries;
  free_open_file_entries = heap.entry_states;
  locked = s.locked;
}

abbrev pub all_ok : Malloc → Bool
all_ok heap =
    heap.inode_table_ok && heap.freeinode_ts_ok && heap.fs_data_ok && heap.free_blocks_ok
    && heap.open_file_table_ok && heap.free_open_file_entries_ok

-- `for (i = 0; i < n; i++) ts[i] = FREE`
unfoldable pub free_below : ℕ → (ℕ → AllocationState) → ℕ → AllocationState
free_below n ts i = if ltb i n then free else ts i

abbrev pub is_allocated : Option TfsParams → Bool
is_allocated none = false
is_allocated (some p) = true

unfoldable pub state_init : Malloc → TfsParams → M ℤ
state_init heap params s =
    if is_allocated s.allocated
    then done minus_one (record s { fs_params = params })
    else if not (all_ok heap)
    then done minus_one (with_memory params heap s)
    else done (pos 0) (record (with_memory params heap s) {
      freeinode_ts = free_below params.max_inode_count heap.inode_states;
      free_blocks = free_below params.max_block_count heap.block_states;
      free_open_file_entries = free_below params.max_open_files_count heap.entry_states;
    })

unfoldable pub state_destroy : M ℤ
state_destroy s = done (pos 0) (record s { allocated = none })
