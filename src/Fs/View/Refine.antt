-- ===== src/Fs/View/Refine.antt =====
-- The operations of fs/operations.c refine the steps on maps from names to bytes.
use ex.Common.{ℕ, ◌+◌, ◌^◌, ◌<◌, ◌≤◌, ◌≡◌, ap, ◌∙◌, true, subst, Option, some, List, length, take}
use ex.Common.Int.{ℤ, pos}
use ex.Fs.State.Types.{Fs, taken}
use ex.Fs.State.Memory.{Text, IsText}
use ex.Fs.State.Monad
use ex.Fs.State.Monad.{done, both, Returns}
use ex.Fs.State.Dir.{find_in_dir}
use ex.Fs.Ops.Mutex.{Pthread, IsPosix, valid_pathname, skip_slash}
use ex.Fs.Ops.Open.{tfs_open}
use ex.Fs.Ops.Unlink.{tfs_unlink}
use ex.Fs.Ops.Transfer.{tfs_write}
use ex.Fs.Valid.{IsValid}
use ex.Fs.Safe.Finish.{IsString, skip_slash_lem}
use ex.Fs.Safe.Read.{inode_of, IsWithin}
use ex.Fs.Safe.Write.{tfs_write-Counted}
use ex.Fs.Names.{same_block-SameNames}
use ex.Fs.Names.Existing.{Opened}
use ex.Fs.Names.Existing
use ex.Fs.Names.Open.{tfs_open-Opened}
use ex.Fs.Names.Unlink.{Unlinked, deleted, tfs_unlink-Unlinked}
use ex.Fs.Names.Unlink
use ex.Fs.Content.{content}
use ex.Fs.Content.Bytes.{splice}
use ex.Fs.Content.Keep.{content-empty}
use ex.Fs.Content.Frame.{Framed, tfs_write-Framed}
use ex.Fs.Content.Write.{Wrote, wrote, tfs_write-Wrote}
use ex.Fs.Content.Write
use ex.Fs.View.{
  IsUpdated, view, file_of, Step, open_file, unlink_file, write_file, opened, created, refused,
  unlinked, missing, written, no_block,
}
use ex.Fs.View.Lookups.{
  found-InUse, found_unique, SameNames-Unchanged, SameOthers-IsUpdated, IsRenamed-IsUpdated,
}

module _ {s : Fs} (v : IsValid s) (nm : Text) (text : IsText nm) where
  Unlinked-Step :
      {r : ℤ} {t : Fs}
      → Unlinked s nm r t
      → Step s.fs_params.block_size (view s) (view t) (unlink_file nm) r
  Unlinked-Step (deleted k q free' names files tight same) = unlinked (content s k) (ap file_of q) (
      IsRenamed-IsUpdated v names (λ j x tx ne qx u.
        files j
          (λ e.
            ne (
              found_unique v x nm tx text (subst (λ i. find_in_dir 0 x s ≡ done (pos i) s) e qx) q))
          u))
  Unlinked-Step (Unlink.missing q names files tight same) =
      missing (ap file_of q) (SameNames-Unchanged v names files)

  Opened-Step :
      {mode : ℕ} {r : ℤ} {t : Fs}
      → Opened s nm mode r t
      → Step s.fs_params.block_size (view s) (view t) (open_file nm mode) r
  Opened-Step {t = t} (Existing.existing k q names size here files tight h) =
      opened (content s k) (ap file_of q) (SameOthers-IsUpdated v _ text q names files here)
  Opened-Step {t = t} (Existing.made k q creating names size files tight h) =
      created (ap file_of q) creating (
        subst (λ c. IsUpdated (view s) (view t) nm (some c)) (content-empty t k size)
          (IsRenamed-IsUpdated v names (λ j x tx ne qx u. files j u)))
  Opened-Step (Existing.refused q names files tight same why) =
      refused (ap file_of q) (SameNames-Unchanged v names files)

  Wrote-Step :
      {r : ℤ} {t : Fs} (h w : ℕ) (buffer : List ℕ)
      → find_in_dir 0 nm s ≡ done (pos (inode_of s h)) s
      → IsValid t
      → Framed s h t
      → Wrote s h w buffer r t
      → Step s.fs_params.block_size
          (view s)
          (view t)
          (write_file nm (s.open_file_table h).of_offset w buffer)
          r
  Wrote-Step h w buffer q vt f (Write.no_block empty full files) =
      no_block (ap file_of q ∙ ap some (content-empty s (inode_of s h) empty)) (
        SameNames-Unchanged v (same_block-SameNames v vt f.same_params f.directory)
          (λ j u. files j))
  Wrote-Step {t = t} h w buffer q vt f (wrote n cut i) =
      rw (i.value, cut)
        (written (content s (inode_of s h)) (ap file_of q) (
          SameOthers-IsUpdated v _ text q (same_block-SameNames v vt f.same_params f.directory)
            i.others
            (i.file
              ∙ ap
                  (λ j.
                    splice (s.open_file_table h).of_offset (take j buffer)
                      (content s (inode_of s h)))
                  cut)))

module _ {pt : Pthread} (posix : IsPosix pt) where
  -- `tfs_open` refines the specification: in a well-formed state, with mutex calls that do not return
  -- -1 and a valid path name, it returns, and takes the map of the file system a step for opening the
  -- name: a file that exists is emptied with TFS_O_TRUNC and kept without it; a name that is not there
  -- gets an empty file, with TFS_O_CREAT, or the value is -1 and the map stays.
  pub tfs_open-Step :
      (name : Option Text) (mode : ℕ) (s : Fs)
      → IsValid s
      → IsString name
      → valid_pathname name ≡ true
      → Returns
          (λ r t.
            Step s.fs_params.block_size (view s) (view t) (open_file (skip_slash name) mode) r)
          (tfs_open pt name mode s)
  tfs_open-Step name mode s v text valid =
      Monad.mono (tfs_open-Opened posix name mode s v text valid)
        (λ r t. Opened-Step v (skip_slash name) (skip_slash_lem name text valid).0)

  -- `tfs_unlink` refines the specification: in a well-formed state, with mutex calls that do not
  -- return -1 and a valid path name, it returns, and takes the map of the file system a step for
  -- unlinking the name: a name that is there goes, with the value 0; otherwise the map stays, with -1.
  pub tfs_unlink-Step :
      (target : Option Text) (s : Fs)
      → IsValid s
      → IsString target
      → valid_pathname target ≡ true
      → Returns
          (λ r t. Step s.fs_params.block_size (view s) (view t) (unlink_file (skip_slash target)) r)
          (tfs_unlink pt target s)
  tfs_unlink-Step target s v text valid =
      Monad.mono (tfs_unlink-Unlinked posix target s v text valid)
        (λ r t. Unlinked-Step v (skip_slash target) (skip_slash_lem target text valid).0)

  -- `tfs_write` refines the specification: in a well-formed state, with mutex calls that do not
  -- return -1, through an open handle for the file of the name `nm`, with its offset not behind the end
  -- of the file, and a count that the buffer covers and that does not overflow a size_t with the block
  -- size, it returns, and takes the map of the file system a step for writing to the name at the
  -- handle's offset: the bytes that fit the block are spliced into the file, and their number is the
  -- value; or the file is empty, the map stays, and the value is -1.
  pub tfs_write-Step :
      (nm : Text) (h w : ℕ) (buffer : List ℕ) (s : Fs)
      → IsValid s
      → IsText nm
      → find_in_dir 0 nm s ≡ done (pos (inode_of s h)) s
      → h < s.fs_params.max_open_files_count
      → s.free_open_file_entries h ≡ taken
      → IsWithin s h
      → w ≤ length buffer
      → w + s.fs_params.block_size < 2 ^ 64
      → Returns
          (λ r t.
            Step s.fs_params.block_size
              (view s)
              (view t)
              (write_file nm (s.open_file_table h).of_offset w buffer)
              r)
          (tfs_write pt (pos h) buffer w s)
  tfs_write-Step nm h w buffer s v text q lt t within enough small =
      let u = found-InUse v nm q in
      Monad.mono
        (both (tfs_write-Counted posix (pos h) buffer w s v enough small) (
          both (tfs_write-Framed posix h w buffer s v lt t u enough small)
            (tfs_write-Wrote posix h w buffer s v lt t within u enough small)))
        (λ r z (c, (f, wr)). Wrote-Step v nm text h w buffer q c.0.valid f wr)
