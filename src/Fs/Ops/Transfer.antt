-- ===== src/Fs/Ops/Transfer.antt =====
-- fs/operations.c: `tfs_write` and `tfs_read`. Sums and differences of a size_t are modulo 2^64.
-- The memory of `fs_data` ends where its allocation ends: a memcpy that goes past it stops with
-- `bad_access`, and so does one that reads past the end of the caller's buffer.
use ex.Common.{
  ℕ, ◌+◌, ◌-◌, ◌*◌, ◌%◌, ◌^◌, ◌&&◌, Option, none, some, List, [], ltb, leb, ◌==◌, if◌then◌else◌,
  length, take, update,
}
use ex.Common.Int.{ℤ, minus_one, ◌==ℤ◌, to_ssize}
use ex.Fs.State.Types.{TfsParams, Fs, OpenFileEntry}
use ex.Fs.State.Memory.{write_bytes, read_bytes}
use ex.Fs.State.Monad.{M, done, stop, bad_access, pure, ◌>>=◌, ◌>>◌, get, modify}
use ex.Fs.State.Tables.{
  inode_get, data_block_alloc, data_block_get, set_inode, get_open_file_entry, state_block_size,
}
use ex.Fs.Ops.Mutex.{Pthread, mutex_lock, with_lock, unlock_return}

-- `a + b` and `a - b` on size_t
unfoldable pub add_size : ℕ → ℕ → ℕ
add_size a b = (a + b) % 2 ^ 64

unfoldable pub sub_size : ℕ → ℕ → ℕ
sub_size a b = (a + 2 ^ 64 - b) % 2 ^ 64

-- The bytes allocated for `fs_data`.
abbrev pub data_bytes : Option TfsParams → ℕ
data_bytes none = 0
data_bytes (some p) = p.max_block_count * p.block_size

unfoldable pub memcpy_in : ℕ → List ℕ → ℕ → M (Unit {0})
memcpy_in a buffer n s =
    if leb (a + n) (data_bytes s.allocated) && leb n (length buffer)
    then done tt (record s { fs_data = write_bytes s.fs_data a (take n buffer) })
    else stop bad_access

unfoldable pub memcpy_out : ℕ → ℕ → M (List ℕ)
memcpy_out a n s =
    if leb (a + n) (data_bytes s.allocated)
    then done (read_bytes s.fs_data a n) s
    else stop bad_access

abbrev pub set_entry : ℕ → (OpenFileEntry → OpenFileEntry) → Fs → Fs
set_entry f g s = record s {
  open_file_table = update s.open_file_table f (g (s.open_file_table f));
}

abbrev pub advance : ℕ → OpenFileEntry → OpenFileEntry
advance n e = record e { of_offset = add_size e.of_offset n }

-- `if (offset > size) size = offset`
abbrev pub grow : ℕ → ℕ → ℕ
grow size offset = if ltb size offset then offset else size

-- How many bytes `tfs_write` writes.
unfoldable pub clip_write : ℕ → ℕ → ℕ → ℕ
unfolding add_size sub_size
clip_write block_size offset to_write =
    if ltb block_size (add_size to_write offset) then sub_size block_size offset else to_write

-- The copy into the file's block, and the new offset and size.
unfoldable pub write_block : Pthread → ℕ → ℕ → List ℕ → ℕ → M ℤ
write_block pt file inode buffer n = do
  s ← get
  block ← data_block_get (s.inode_table inode).i_data_block
  memcpy_in (block + (s.open_file_table file).of_offset) buffer n
  modify (set_entry file (advance n))
  t ← get
  modify (
      set_inode inode (λ k. record k { i_size = grow k.i_size (t.open_file_table file).of_offset }))
  unlock_return pt (to_ssize n)

-- The first block of an empty file, and then the copy.
unfoldable pub write_new : Pthread → ℕ → ℕ → List ℕ → ℕ → M ℤ
write_new pt file inode buffer n = do
  bnum ← data_block_alloc
  if bnum ==ℤ minus_one then unlock_return pt minus_one else (do
    modify (set_inode inode (λ k. record k { i_data_block = bnum }))
    write_block pt file inode buffer n)

unfoldable pub write_entry : Pthread → List ℕ → ℕ → Option ℕ → M ℤ
write_entry pt buffer to_write none = unlock_return pt minus_one
write_entry pt buffer to_write (some file) = do
  s ← get
  inode ← inode_get (s.open_file_table file).of_inumber
  let n = clip_write (state_block_size s) (s.open_file_table file).of_offset to_write
  if ltb 0 n
      then (if (s.inode_table inode).i_size == 0
          then write_new pt file inode buffer n
          else write_block pt file inode buffer n)
      else unlock_return pt (to_ssize n)

unfoldable pub tfs_write : Pthread → ℤ → List ℕ → ℕ → M ℤ
tfs_write pt fhandle buffer to_write =
    with_lock pt (do s ← get; write_entry pt buffer to_write (get_open_file_entry s fhandle))

-- How many bytes `tfs_read` reads.
unfoldable pub clip_read : ℕ → ℕ → ℕ → ℕ
unfolding sub_size
clip_read size offset len =
    let to_read = sub_size size offset in if ltb len to_read then len else to_read

-- The value that is returned, and the bytes that were put into the caller's buffer.
abbrev pub unlock_read : Pthread → ℤ → List ℕ → M (ℤ × List ℕ)
unlock_read pt v bytes = do r ← unlock_return pt v; pure (r, bytes)

unfoldable pub read_block : Pthread → ℕ → ℕ → ℕ → M (ℤ × List ℕ)
read_block pt file inode n = do
  s ← get
  block ← data_block_get (s.inode_table inode).i_data_block
  bytes ← memcpy_out (block + (s.open_file_table file).of_offset) n
  modify (set_entry file (advance n))
  unlock_read pt (to_ssize n) bytes

unfoldable pub read_entry : Pthread → ℕ → Option ℕ → M (ℤ × List ℕ)
read_entry pt len none = unlock_read pt minus_one []
read_entry pt len (some file) = do
  s ← get
  inode ← inode_get (s.open_file_table file).of_inumber
  let n = clip_read (s.inode_table inode).i_size (s.open_file_table file).of_offset len
  if ltb 0 n then read_block pt file inode n else unlock_read pt (to_ssize n) []

unfoldable pub tfs_read : Pthread → ℤ → ℕ → M (ℤ × List ℕ)
tfs_read pt fhandle len = do
  r ← mutex_lock pt
  if r ==ℤ minus_one
      then pure (minus_one, [])
      else (do s ← get; read_entry pt len (get_open_file_entry s fhandle))
