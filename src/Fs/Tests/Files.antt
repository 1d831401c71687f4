-- ===== src/Fs/Tests/Files.antt =====
-- The theorems about names and file contents at the small file system of Fs/Tests.
use ex.Common.{◌≡◌, refl, true, [], ◌∷◌, arith}
use ex.Common.Int.{pos, pos_part}
use ex.Fs.State.Types.{Fs, taken}
use ex.Fs.State.Monad.{Returns, mono, final, Returns-final}
use ex.Fs.Ops.Mutex.{working, valid_pathname}
use ex.Fs.Ops.Open.{tfs_open}
use ex.Fs.Ops.Unlink.{tfs_unlink}
use ex.Fs.Ops.Transfer.{tfs_write, tfs_read}
use ex.Fs.Valid.{IsValid, InUse}
use ex.Fs.Safe.Open.{tfs_open-Finished}
use ex.Fs.Safe.Write.{tfs_write-Counted}
use ex.Fs.Names.Unlink.{Unlinked, tfs_unlink-Unlinked}
use ex.Fs.Names.Existing.{Opened}
use ex.Fs.Names.Open.{tfs_open-Opened}
use ex.Fs.Content.Read.{Sliced, tfs_read-Sliced}
use ex.Fs.Content.Write.{Wrote, tfs_write-Wrote}
use ex.Fs.Tests.{
  path, greeting, mounted, opened, posix, mounted-IsValid, opened-IsValid, scenario,
  opened-block_size, opened-IsWithin,
}

pub path-valid : valid_pathname path ≡ true
unfolding valid_pathname
path-valid = refl

tfs_open-Opened_example : Returns (Opened mounted (b'a' ∷ []) 1) (tfs_open working path 1 mounted)
tfs_open-Opened_example =
    tfs_open-Opened posix path 1 mounted mounted-IsValid (omega arith) path-valid

tfs_unlink-Unlinked_example : Returns (Unlinked opened (b'a' ∷ [])) (tfs_unlink working path opened)
tfs_unlink-Unlinked_example =
    tfs_unlink-Unlinked posix path opened opened-IsValid (omega arith) path-valid

opened-inode : pos_part (opened.open_file_table 0).of_inumber ≡ 1
unfolding scenario
opened-inode = refl

pub opened-limits :
    (opened.fs_params.max_open_files_count ≡ 3) × (opened.fs_params.max_inode_count ≡ 4)
unfolding scenario
opened-limits = (refl, refl)

pub opened-taken :
    (opened.free_open_file_entries 0 ≡ taken)
    × (opened.freeinode_ts (pos_part (opened.open_file_table 0).of_inumber) ≡ taken)
unfolding scenario
opened-taken = (refl, refl)

opened-InUse :
    InUse opened.fs_params opened.freeinode_ts (pos_part (opened.open_file_table 0).of_inumber)
opened-InUse = record {
  ne_root = λ q. omega (arith, q, opened-inode);
  below = omega (arith, opened-inode, opened-limits);
  is_taken = opened-taken.1;
}

tfs_write-Wrote_example :
    Returns (Wrote opened 0 2 greeting) (tfs_write working (pos 0) greeting 2 opened)
tfs_write-Wrote_example =
    tfs_write-Wrote posix 0 2 greeting opened opened-IsValid (omega (arith, opened-limits))
      opened-taken.0 (opened-IsWithin 0 refl) opened-InUse (omega arith)
      (omega (arith, opened-block_size))

abbrev filled : Fs
filled = final (tfs_write working (pos 0) greeting 2 opened) opened

filled-IsValid : IsValid filled
filled-IsValid =
    let done =
      tfs_write-Counted posix (pos 0) greeting 2 opened opened-IsValid (omega arith)
        (omega (arith, opened-block_size)) in
    Returns-final opened (mono done (λ _ t c. c.0.valid))

abbrev reopened : Fs
reopened = final (tfs_open working path 0 filled) filled

reopened-IsValid : IsValid reopened
reopened-IsValid =
    let done = tfs_open-Finished posix path 0 filled filled-IsValid (omega arith) in
    Returns-final filled (mono done (λ _ t f. f.valid))

reopened-facts :
    (reopened.fs_params.max_open_files_count ≡ 3) × ((reopened.open_file_table 1).of_offset ≡ 0)
unfolding scenario
reopened-facts = (refl, refl)

reopened-taken : reopened.free_open_file_entries 1 ≡ taken
unfolding scenario
reopened-taken = refl

tfs_read-Sliced_example : Returns (Sliced reopened 1 10) (tfs_read working (pos 1) 10 reopened)
tfs_read-Sliced_example =
    tfs_read-Sliced posix 1 10 reopened reopened-IsValid (omega (arith, reopened-facts))
      reopened-taken (omega (arith, reopened-facts))
