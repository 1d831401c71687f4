-- ===== src/Fs/State/Dir.antt =====
-- fs/state.c: directory entries. The entry `i` of a directory is the 44 bytes at
-- `dir_entry + 44 * i` of `fs_data`, the name first and the inumber behind it.
use ex.Common.{
  ℕ, ◌+◌, ◌-◌, ◌*◌, Bool, true, false, not, ◌&&◌, ◌||◌, Option, none, some, [], ◌∷◌, ltb, ◌==◌,
  if◌then◌else◌, length,
}
use ex.Common.Int.{ℤ, minus_one, ◌==ℤ◌}
use ex.Common.First.{first_index}
use ex.Fs.State.Types.{
  InodeType, t_file, t_directory, max_dir_entries, dir_entry_size, max_file_name,
}
use ex.Fs.State.Memory.{
  Memory, Text, write_bytes, zero_bytes, strncpy_bytes, strcmp_eq, strncmp_eq, load_int, store_int,
}
use ex.Fs.State.Monad.{M, done, pure, ◌>>=◌, get}
use ex.Fs.State.Tables.{data_block_get}

-- `dir_entry[i].d_name`
abbrev pub d_name : ℕ → ℕ → ℕ
d_name dir_entry i = dir_entry + i * dir_entry_size

-- `&dir_entry[i].d_inumber`
abbrev pub d_inumber : ℕ → ℕ → ℕ
d_inumber dir_entry i = dir_entry + i * dir_entry_size + max_file_name

abbrev pub is_directory : InodeType → Bool
is_directory t_directory = true
is_directory t_file = false

abbrev pub has_name : ℕ → Text → Memory → ℕ → Bool
has_name dir_entry sub_name m i = strcmp_eq m (d_name dir_entry i) sub_name

-- The two writes that clear an entry.
unfoldable pub clear_entry : ℕ → ℕ → Memory → Memory
clear_entry dir_entry i m =
    zero_bytes (store_int m (d_inumber dir_entry i) minus_one) (d_name dir_entry i) max_file_name

abbrev pub clear_at : ℕ → Option ℕ → M ℤ
clear_at dir_entry none s = done minus_one s
clear_at dir_entry (some i) s =
    done (ℤ.pos 0) (record s { fs_data = clear_entry dir_entry i s.fs_data })

unfoldable pub clear_dir_entry : ℕ → Text → M ℤ
clear_dir_entry inode sub_name = do
  s ← get
  if not (is_directory (s.inode_table inode).i_node_type) then pure minus_one else (do
    dir_entry ← data_block_get (s.inode_table inode).i_data_block
    clear_at dir_entry (first_index (max_dir_entries s) (has_name dir_entry sub_name s.fs_data)))

abbrev pub is_unused : ℕ → Memory → ℕ → Bool
is_unused dir_entry m i = load_int m (d_inumber dir_entry i) ==ℤ minus_one

-- The three writes that fill an entry.
unfoldable pub fill_entry : ℕ → ℕ → Text → ℤ → Memory → Memory
fill_entry dir_entry i sub_name sub_inumber m =
    write_bytes
      (write_bytes (store_int m (d_inumber dir_entry i) sub_inumber) (d_name dir_entry i)
        (strncpy_bytes sub_name (max_file_name - 1)))
      (d_name dir_entry i + (max_file_name - 1)) (0 ∷ [])

abbrev pub fill_at : ℕ → Text → ℤ → Option ℕ → M ℤ
fill_at dir_entry sub_name sub_inumber none s = done minus_one s
fill_at dir_entry sub_name sub_inumber (some i) s =
    done (ℤ.pos 0) (record s { fs_data = fill_entry dir_entry i sub_name sub_inumber s.fs_data })

unfoldable pub add_dir_entry : ℕ → Text → ℤ → M ℤ
add_dir_entry inode sub_name sub_inumber = do
  s ← get
  if (length sub_name == 0) || ltb (max_file_name - 1) (length sub_name)
      then pure minus_one
      else if not (is_directory (s.inode_table inode).i_node_type)
      then pure minus_one
      else (do
        dir_entry ← data_block_get (s.inode_table inode).i_data_block
        fill_at dir_entry sub_name sub_inumber
            (first_index (max_dir_entries s) (is_unused dir_entry s.fs_data)))

abbrev pub is_named : ℕ → Text → Memory → ℕ → Bool
is_named dir_entry sub_name m i =
    not (is_unused dir_entry m i) && strncmp_eq m (d_name dir_entry i) sub_name max_file_name

abbrev pub inumber_at : ℕ → Memory → Option ℕ → ℤ
inumber_at dir_entry m none = minus_one
inumber_at dir_entry m (some i) = load_int m (d_inumber dir_entry i)

unfoldable pub find_in_dir : ℕ → Text → M ℤ
find_in_dir inode sub_name = do
  s ← get
  if not (is_directory (s.inode_table inode).i_node_type) then pure minus_one else (do
    dir_entry ← data_block_get (s.inode_table inode).i_data_block
    pure (
        inumber_at dir_entry s.fs_data
          (first_index (max_dir_entries s) (is_named dir_entry sub_name s.fs_data))))
