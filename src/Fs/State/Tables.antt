-- ===== src/Fs/State/Tables.antt =====
-- fs/state.c: the inode table, the data blocks and the open file table. A pointer to an inode or to
-- an open file entry is its index in the table, and a pointer into `fs_data` is an offset. The
-- busy loop `insert_delay` has no effect on the state and is left out.
use ex.Common.{ℕ, zero, suc, ◌+◌, ◌*◌, Bool, not, Option, none, some, ltb, if◌then◌else◌, update}
use ex.Common.Int.{ℤ, minus_one, pos_part, ◌==ℤ◌, in_range, to_int}
use ex.Common.First.{first_index}
use ex.Fs.State.Types.{
  Inode, InodeType, t_file, t_directory, free, taken, Fs, is_free, max_dir_entries, dir_entry_size,
  max_file_name,
}
use ex.Fs.State.Memory.{Memory, store_int}
use ex.Fs.State.Monad.{M, done, pure, ◌>>=◌, ◌>>◌, get, modify, always_assert}

abbrev pub valid_inumber : Fs → ℤ → Bool
valid_inumber s inumber = in_range inumber s.fs_params.max_inode_count

abbrev pub valid_block_number : Fs → ℤ → Bool
valid_block_number s block_number = in_range block_number s.fs_params.max_block_count

abbrev pub valid_file_handle : Fs → ℤ → Bool
valid_file_handle s file_handle = in_range file_handle s.fs_params.max_open_files_count

abbrev pub state_block_size : Fs → ℕ
state_block_size s = s.fs_params.block_size

-- What a search loop does at the index that it finds.
abbrev pub take_first : Option ℕ → (ℕ → Fs → Fs) → M ℤ
take_first none f s = done minus_one s
take_first (some i) f s = done (to_int i) (f i s)

abbrev pub take_inode : ℕ → Fs → Fs
take_inode i s = record s { freeinode_ts = update s.freeinode_ts i taken }

unfoldable pub inode_alloc : M ℤ
inode_alloc s =
    take_first (first_index s.fs_params.max_inode_count (λ i. is_free (s.freeinode_ts i)))
      take_inode s

abbrev pub take_block : ℕ → Fs → Fs
take_block i s = record s { free_blocks = update s.free_blocks i taken }

unfoldable pub data_block_alloc : M ℤ
data_block_alloc s =
    take_first (first_index s.fs_params.max_block_count (λ i. is_free (s.free_blocks i))) take_block
      s

unfoldable pub data_block_free : ℤ → M (Unit {0})
data_block_free block_number = do
  s ← get
  always_assert (valid_block_number s block_number)
  modify (λ t. record t { free_blocks = update t.free_blocks (pos_part block_number) free })

-- The offset in `fs_data` of a block's first byte.
unfoldable pub data_block_get : ℤ → M ℕ
data_block_get block_number = do
  s ← get
  always_assert (valid_block_number s block_number)
  pure (pos_part block_number * s.fs_params.block_size)

abbrev pub set_inode : ℕ → (Inode → Inode) → Fs → Fs
set_inode i f s = record s { inode_table = update s.inode_table i (f (s.inode_table i)) }

abbrev pub release_inode : ℕ → Fs → Fs
release_inode i s = record s { freeinode_ts = update s.freeinode_ts i free }

unfoldable pub inode_delete : ℤ → M (Unit {0})
inode_delete inumber = do
  s ← get
  always_assert (valid_inumber s inumber)
  always_assert (not (is_free (s.freeinode_ts (pos_part inumber))))
  (if ltb 0 (s.inode_table (pos_part inumber)).i_size
      then data_block_free (s.inode_table (pos_part inumber)).i_data_block
      else pure tt)
  modify (release_inode (pos_part inumber))

-- `for (i = 0; i < MAX_DIR_ENTRIES; i++) dir_entry[i].d_inumber = -1`, with `k` rounds left
unfoldable pub label_empty : ℕ → ℕ → ℕ → Memory → Memory
label_empty zero i dir_entry m = m
label_empty (suc k) i dir_entry m =
    label_empty k (i + 1) dir_entry
      (store_int m (dir_entry + i * dir_entry_size + max_file_name) minus_one)

-- The `case T_DIRECTORY` of `inode_create`, for the inode that was allocated.
unfoldable pub create_directory : ℤ → M ℤ
create_directory inumber = do
  b ← data_block_alloc
  if b ==ℤ minus_one
      then (do
        modify
            (set_inode (pos_part inumber) (λ n. record n { i_size = 0; i_data_block = minus_one }))
        inode_delete inumber
        pure minus_one)
      else (do
        s ← get
        modify (
            set_inode (pos_part inumber)
              (λ n. record n { i_size = s.fs_params.block_size; i_data_block = b }))
        dir_entry ← data_block_get b
        modify (λ t. record t { fs_data = label_empty (max_dir_entries t) 0 dir_entry t.fs_data })
        pure inumber)

-- The `case T_FILE` of `inode_create`.
unfoldable pub create_file : ℤ → M ℤ
create_file inumber = do
  modify (set_inode (pos_part inumber) (λ n. record n { i_size = 0; i_data_block = minus_one }))
  pure inumber

unfoldable pub create_node : InodeType → ℤ → M ℤ
create_node t_directory inumber = create_directory inumber
create_node t_file inumber = create_file inumber

unfoldable pub inode_create : InodeType → M ℤ
inode_create i_type = do
  inumber ← inode_alloc
  if inumber ==ℤ minus_one then pure minus_one else (do
    modify (set_inode (pos_part inumber) (λ n. record n { i_node_type = i_type }))
    create_node i_type inumber)

-- Returns the index of the inode.
unfoldable pub inode_get : ℤ → M ℕ
inode_get inumber = do s ← get; always_assert (valid_inumber s inumber); pure (pos_part inumber)

abbrev pub open_entry : ℤ → ℕ → ℕ → Fs → Fs
open_entry inumber offset i s = record s {
  free_open_file_entries = update s.free_open_file_entries i taken;
  open_file_table =
      update s.open_file_table i (record { of_inumber = inumber; of_offset = offset });
}

unfoldable pub add_to_open_file_table : ℤ → ℕ → M ℤ
add_to_open_file_table inumber offset s =
    take_first
      (first_index s.fs_params.max_open_files_count (λ i. is_free (s.free_open_file_entries i)))
      (open_entry inumber offset) s

abbrev pub release_entry : ℕ → Fs → Fs
release_entry i s = record s { free_open_file_entries = update s.free_open_file_entries i free }

unfoldable pub remove_from_open_file_table : ℤ → M (Unit {0})
remove_from_open_file_table fhandle = do
  s ← get
  always_assert (valid_file_handle s fhandle)
  always_assert (not (is_free (s.free_open_file_entries (pos_part fhandle))))
  modify (release_entry (pos_part fhandle))

-- `none` stands for NULL.
unfoldable pub get_open_file_entry : Fs → ℤ → Option ℕ
get_open_file_entry s fhandle =
    if not (valid_file_handle s fhandle)
    then none
    else if is_free (s.free_open_file_entries (pos_part fhandle))
    then none
    else some (pos_part fhandle)
