-- ===== src/Fs/Tests/Echo.antt =====
-- A write through one handle and a read through another one of the same file.
use ex.Common.{◌≡◌, refl, arith}
use ex.Fs.State.Types.{Fs, taken}
use ex.Fs.State.Monad.{Returns, mono, final, Returns-final}
use ex.Fs.Ops.Mutex.{working}
use ex.Fs.Ops.Open.{tfs_open}
use ex.Fs.Valid.{IsValid, InUse}
use ex.Fs.Safe.Open.{tfs_open-Finished}
use ex.Fs.Safe.Read.{inode_of}
use ex.Fs.Content.Again.{Echoed, write_then_read, write_then_read-Echoed}
use ex.Fs.Tests.{path, greeting, opened, posix, opened-IsValid, scenario}

abbrev twice : Fs
twice = final (tfs_open working path 0 opened) opened

twice-IsValid : IsValid twice
twice-IsValid =
    let done = tfs_open-Finished posix path 0 opened opened-IsValid (omega arith) in
    Returns-final opened (mono done (λ _ t f. f.valid))

twice-sizes :
    (twice.fs_params.max_open_files_count ≡ 3)
    × (twice.fs_params.max_inode_count ≡ 4)
    × (twice.fs_params.block_size ≡ 132)
    × ((twice.open_file_table 0).of_offset ≡ 0)
    × (inode_of twice 0 ≡ 1)
unfolding scenario
twice-sizes = (refl, refl, refl, refl, refl)

twice-taken :
    (twice.free_open_file_entries 0 ≡ taken)
    × (twice.free_open_file_entries 1 ≡ taken)
    × (twice.freeinode_ts (inode_of twice 0) ≡ taken)
unfolding scenario
twice-taken = (refl, refl, refl)

twice-shared :
    (inode_of twice 1 ≡ inode_of twice 0)
    × ((twice.open_file_table 1).of_offset ≡ (twice.open_file_table 0).of_offset)
unfolding scenario
twice-shared = (refl, refl)

twice-InUse : InUse twice.fs_params twice.freeinode_ts (inode_of twice 0)
twice-InUse = record {
  ne_root = λ q. omega (arith, q, twice-sizes);
  below = omega (arith, twice-sizes);
  is_taken = twice-taken.2;
}

write_then_read-Echoed_example :
    Returns (λ a z. Echoed 2 1 greeting a) (write_then_read working 0 1 greeting 2 1 twice)
write_then_read-Echoed_example =
    write_then_read-Echoed posix 0 1 2 1 greeting twice twice-IsValid (omega (arith, twice-sizes))
      twice-taken.0 (omega (arith, twice-sizes)) twice-taken.1 (omega arith) twice-shared.0
      twice-shared.1 (omega (arith, twice-sizes)) twice-InUse (omega arith)
      (omega (arith, twice-sizes)) (omega arith)
