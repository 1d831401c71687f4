-- ===== src/Fs/Tests.antt =====
-- The theorems about fs/ at a small file system: four inodes, four blocks of 132 bytes (three
-- directory entries) and three open files.
mod Files
mod Echo
mod Maps
mod Clients
mod History
mod Reopen
mod Fresh
use ex.Common.{ℕ, ◌≡◌, refl, ap, subst, true, false, Option, none, some, List, [], ◌∷◌, arith}
use ex.Common.Int.{ℤ, pos, minus_one, to_int, to_ssize, word, int_bytes, int_of_bytes}
use ex.Fs.State.Types.{TfsParams, t_file, free, taken, Fs, max_dir_entries}
use ex.Fs.State.Memory.{
  Text, write_bytes, read_bytes, strncpy_bytes, strcmp_eq, strncmp_eq, load_int, store_int,
}
use ex.Fs.State.Monad.{done, stop, Returns, mono, final, Returns-final}
use ex.Fs.State.Setup.{Malloc, free_below, state_init, state_destroy}
use ex.Fs.State.Tables.{
  inode_alloc, data_block_alloc, data_block_free, data_block_get, inode_delete, label_empty,
  create_directory, create_file, create_node, inode_create, inode_get, add_to_open_file_table,
  remove_from_open_file_table, get_open_file_entry,
}
use ex.Fs.Ops.Mutex.{
  IsPosix, working, mutex_lock, mutex_unlock, unlock_return, with_lock, valid_pathname, tfs_lookup,
}
use ex.Fs.Ops.Open.{
  tfs_open, tfs_close, open_finish, truncate_inode, open_existing, open_new, open_path, close_entry,
}
use ex.Fs.Ops.Transfer.{
  tfs_write, tfs_read, add_size, sub_size, memcpy_in, memcpy_out, clip_write, write_block,
  write_new, write_entry, clip_read, read_block, read_entry,
}
use ex.Fs.Ops.Unlink.{tfs_unlink, unlink_path}
use ex.Fs.Ops.Init.{tfs_init, tfs_destroy, choose_params}
use ex.Common.First.{first_index}
use ex.Fs.State.Dir.{clear_entry, clear_dir_entry, fill_entry, add_dir_entry, find_in_dir}
use ex.Fs.Valid.{IsValid}
use ex.Fs.Safe.Finish.{Finished}
use ex.Fs.Safe.Open.{tfs_open-Finished}
use ex.Fs.Safe.Close.{tfs_close-Finished, tfs_unlink-Finished}
use ex.Fs.Safe.Write.{Counted, tfs_write-Counted}
use ex.Fs.Safe.Clip.{clip_read_past_end}
use ex.Fs.Safe.Read.{IsWithin, Copied, tfs_read-Copied}
use ex.Fs.Safe.Init.{IsUsable, tfs_init-IsValid}

abbrev pub params : TfsParams
params = record {
  max_inode_count = 4;
  max_block_count = 4;
  max_open_files_count = 3;
  block_size = 132;
}

-- Memory from malloc, full of garbage.
abbrev pub heap : Malloc
heap = record {
  inode_table_ok = true;
  freeinode_ts_ok = true;
  fs_data_ok = true;
  free_blocks_ok = true;
  open_file_table_ok = true;
  free_open_file_entries_ok = true;
  inodes = λ i. record { i_node_type = t_file; i_size = 7; i_data_block = pos 9 };
  inode_states = λ i. taken;
  bytes = λ a. 97;
  block_states = λ i. taken;
  entries = λ i. record { of_inumber = minus_one; of_offset = 5 };
  entry_states = λ i. taken;
}

-- The program before `tfs_init`.
abbrev pub unmounted : Fs
unmounted = record {
  fs_params = params;
  allocated = none;
  inode_table = λ i. record { i_node_type = t_file; i_size = 0; i_data_block = minus_one };
  freeinode_ts = λ i. free;
  fs_data = λ a. 0;
  free_blocks = λ i. free;
  open_file_table = λ i. record { of_inumber = minus_one; of_offset = 0 };
  free_open_file_entries = λ i. free;
  locked = false;
}

pub usable : IsUsable params
usable = omega arith

pub posix : IsPosix working
posix = record { lock_ne = refl; unlock_ne = refl }

abbrev pub mounted : Fs
mounted = final (tfs_init heap (some params) unmounted) unmounted

pub mounted-IsValid : IsValid mounted
mounted-IsValid = Returns-final unmounted (
    mono (tfs_init-IsValid heap params usable unmounted (some params) refl refl refl)
      (λ r t (_, v). v))

abbrev pub path : Option Text
path = some (b'/' ∷ b'a' ∷ [])

abbrev pub opened : Fs
opened = final (tfs_open working path 1 mounted) mounted

pub opened-IsValid : IsValid opened
opened-IsValid =
    let done = tfs_open-Finished posix path 1 mounted mounted-IsValid (omega arith) in
    Returns-final mounted (mono done (λ _ t f. f.valid))

abbrev pub greeting : List ℕ
greeting = b'h' ∷ b'i' ∷ []

-- A file is created, written, closed, opened again and read.
pub scenario : Fs → ℤ × List ℕ
unfolding first_index to_int to_ssize word int_bytes int_of_bytes tfs_init tfs_destroy mutex_lock
    mutex_unlock unlock_return with_lock valid_pathname tfs_lookup open_finish truncate_inode
    open_existing open_new open_path tfs_open close_entry tfs_close add_size sub_size memcpy_in
    memcpy_out clip_write write_block write_new write_entry tfs_write clip_read read_block
    read_entry tfs_read unlink_path tfs_unlink clear_entry clear_dir_entry fill_entry add_dir_entry
    find_in_dir write_bytes read_bytes strncpy_bytes strcmp_eq strncmp_eq load_int store_int
    free_below state_init state_destroy inode_alloc data_block_alloc data_block_free data_block_get
    inode_delete label_empty create_directory create_file create_node inode_create inode_get
    add_to_open_file_table remove_from_open_file_table get_open_file_entry max_dir_entries
scenario s =
    let s1 = final (tfs_open working path 1 s) s in
    let s2 = final (tfs_write working (pos 0) greeting 2 s1) s1 in
    let s3 = final (tfs_close working (pos 0) s2) s2 in
    let s4 = final (tfs_open working path 0 s3) s3 in
    elim (tfs_read working (pos 0) 10 s4) [ done r t ↦ r | stop e ↦ (minus_one, []) ]

tfs_open-Finished_example : Returns (λ _ t. Finished working t) (tfs_open working path 1 mounted)
tfs_open-Finished_example = tfs_open-Finished posix path 1 mounted mounted-IsValid (omega arith)

scenario_result : scenario mounted ≡ (pos 2, greeting)
unfolding scenario
scenario_result = refl

pub opened-block_size : opened.fs_params.block_size ≡ 132
unfolding scenario
opened-block_size = refl

pub opened-offset : (opened.open_file_table 0).of_offset ≡ 0
unfolding scenario
opened-offset = refl

pub opened-IsWithin : (h : ℕ) → pos 0 ≡ pos h → IsWithin opened h
opened-IsWithin h e =
    let z : 0 ≡ h = ground arith in subst (IsWithin opened) z (omega (arith, opened-offset))

tfs_write-Counted_example :
    Returns (Counted working 2) (tfs_write working (pos 0) greeting 2 opened)
tfs_write-Counted_example =
    tfs_write-Counted posix (pos 0) greeting 2 opened opened-IsValid (omega arith)
      (omega (arith, opened-block_size))

tfs_read-Copied_example : Returns (Copied working 10) (tfs_read working (pos 0) 10 opened)
tfs_read-Copied_example = tfs_read-Copied posix (pos 0) 10 opened opened-IsValid opened-IsWithin

clip_read_past_end_example : clip_read 0 10 32 ≡ 32
clip_read_past_end_example = clip_read_past_end 0 10 32 (omega arith) (omega arith) (omega arith)
