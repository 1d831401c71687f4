-- ===== src/Fs/Trace/Clean.antt =====
-- Calls of fs/operations.c that use no file that has been unlinked, and the calls that are refused.
use ex.Common.{ℕ, ◌<◌, ◌≡◌, refl, ap, false, Option, none, List}
use ex.Common.Int.{ℤ, pos, minus_one}
use ex.Fs.State.Types.{Fs, taken}
use ex.Fs.State.Memory.{Text, IsText}
use ex.Fs.State.Monad.{done, Returns, returns}
use ex.Fs.State.Dir.{find_in_dir}
use ex.Fs.Ops.Mutex.{Pthread, IsPosix, valid_pathname, mutex_lock}
use ex.Fs.Ops.Open.{tfs_open}
use ex.Fs.Ops.Transfer.{tfs_write, tfs_read, write_entry, read_entry}
use ex.Fs.Ops.Unlink.{tfs_unlink}
use ex.Fs.State.Tables.{get_open_file_entry}
use ex.Fs.Valid.{IsValid}
use ex.Fs.Valid.Tight.{Lossless, same-IsTight}
use ex.Fs.Safe.Finish.{locked_by, unlock_return-done, with_lock-done}
use ex.Fs.Safe.Read.{inode_of, IsWithin}
use ex.Fs.Names.{same_data-SameNames}
use ex.Fs.Content.Keep.{content-same}
use ex.Fs.Content.Still.{SameStore, SameStore-tables}
use ex.Fs.View.{view, Unchanged}
use ex.Fs.View.Lookups.{SameNames-Unchanged}
use ex.Fs.Trace.{Call, open_call, close_call, write_call, read_call, unlink_call, IsAllowed}

-- The directory has a name for the file of the handle `h`.
pub record IsNamed (s : Fs) (h : ℕ) : Type 0 where
  pub name : Text
  pub text : IsText name
  pub found : find_in_dir 0 name s ≡ done (pos (inode_of s h)) s

-- The handle is closed, or its file has a name and its offset is not behind the end of it.
abbrev pub IsLinked : Fs → ℤ → Type 0
IsLinked s fhandle =
    (h : ℕ)
    → fhandle ≡ pos h
    → h < s.fs_params.max_open_files_count
    → s.free_open_file_entries h ≡ taken
    → IsNamed s h × IsWithin s h

abbrev HasLink : Fs → Call → Type 0
HasLink s (open_call name mode) = Unit
HasLink s (close_call fhandle) = Unit
HasLink s (write_call fhandle buffer to_write) = IsLinked s fhandle
HasLink s (read_call fhandle len) = IsLinked s fhandle
HasLink s (unlink_call target) = Unit

-- An allowed call, which for a write or a read is through a handle that is closed or linked.
abbrev pub IsClean : Fs → Call → Type 0
IsClean s c = IsAllowed s c × HasLink s c

pub SameStore-Lossless : {s t : Fs} → SameStore s t → Lossless s t
SameStore-Lossless {s} {t} w = record {
  same_params = w.same_params;
  no_leak = same-IsTight s t w.same_params w.same_nodes w.same_inodes w.same_blocks;
}

pub SameStore-Unchanged :
    {s t : Fs} → IsValid s → IsValid t → SameStore s t → Unchanged (view s) (view t)
SameStore-Unchanged {s} {t} v vt w =
    SameNames-Unchanged v (same_data-SameNames v vt w.same_params w.same_data) (λ j u.
      content-same t j v w.same_params (λ a le. ap (λ m. m a) w.same_data)
        (ap (λ g. g j) w.same_nodes) u)

module _ {pt : Pthread} (posix : IsPosix pt) where
  -- A path name that is not valid.
  pub tfs_open-invalid :
      (name : Option Text) (mode : ℕ) (s : Fs)
      → valid_pathname name ≡ false
      → Returns (λ r t. (r ≡ minus_one) × SameStore s t) (tfs_open pt name mode s)
  unfolding tfs_open
  tfs_open-invalid name mode s e =
      rw (with_lock-done posix _ s, e, unlock_return-done posix minus_one (locked_by pt s))
        (returns (refl, SameStore-tables s _ _ _))

  pub tfs_unlink-invalid :
      (target : Option Text) (s : Fs)
      → valid_pathname target ≡ false
      → Returns (λ r t. (r ≡ minus_one) × SameStore s t) (tfs_unlink pt target s)
  unfolding tfs_unlink
  tfs_unlink-invalid target s e =
      rw (with_lock-done posix _ s, e, unlock_return-done posix minus_one (locked_by pt s))
        (returns (refl, SameStore-tables s _ _ _))

  -- A handle that is not open.
  pub tfs_write-closed :
      (fhandle : ℤ) (buffer : List ℕ) (w : ℕ) (s : Fs)
      → get_open_file_entry s fhandle ≡ none
      → Returns (λ r t. (r ≡ minus_one) × SameStore s t) (tfs_write pt fhandle buffer w s)
  unfolding tfs_write write_entry get_open_file_entry
  tfs_write-closed fhandle buffer w s e =
      rw (with_lock-done posix _ s, e, unlock_return-done posix minus_one (locked_by pt s))
        (returns (refl, SameStore-tables s _ _ _))

  pub tfs_read-closed :
      (fhandle : ℤ) (len : ℕ) (s : Fs)
      → get_open_file_entry s fhandle ≡ none
      → Returns (λ r t. (r.0 ≡ minus_one) × SameStore s t) (tfs_read pt fhandle len s)
  unfolding tfs_read mutex_lock read_entry get_open_file_entry
  tfs_read-closed fhandle len s e =
      rw (posix.lock_ne, e, unlock_return-done posix minus_one (locked_by pt s))
        (returns (refl, SameStore-tables s _ _ _))
