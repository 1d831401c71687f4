-- ===== src/Fs/Trace/Outcome.antt =====
-- What each clean call of fs/operations.c does, to the map of the file system and to its blocks.
use ex.Common.{
  ℕ, ◌+◌, ◌^◌, ◌<◌, ◌≤◌, ◌≡◌, refl, sym, ap, ◌∙◌, subst, inl, inr, Bool-cases, Option, List, length,
  take, drop,
}
use ex.Common.Int.{ℤ, pos}
use ex.Fs.State.Types.{Fs, taken}
use ex.Fs.State.Memory.{Text}
use ex.Fs.State.Monad
use ex.Fs.State.Monad.{done, both, Returns, returns, pure, ◌>>=◌}
use ex.Fs.Ops.Mutex.{Pthread, IsPosix, valid_pathname}
use ex.Fs.Ops.Open.{tfs_open}
use ex.Fs.Ops.Transfer.{tfs_write}
use ex.Fs.Ops.Unlink.{tfs_unlink}
use ex.Fs.Valid.{IsValid}
use ex.Fs.Valid.Tight.{Lossless}
use ex.Fs.Safe.Finish.{Finished, IsString}
use ex.Fs.Safe.Close.{Entry, closed, opened, get_open_file_entry-Entry}
use ex.Fs.Safe.Read.{inode_of, IsWithin}
use ex.Fs.State.Tables.{get_open_file_entry}
use ex.Fs.Names.Existing.{Opened-Lossless}
use ex.Fs.Names.Open.{tfs_open-Opened}
use ex.Fs.Names.Unlink.{Unlinked-Lossless, tfs_unlink-Unlinked}
use ex.Fs.Content.{content}
use ex.Fs.Content.Read.{tfs_read-Sliced}
use ex.Fs.Content.Frame.{tfs_write-Framed}
use ex.Fs.Content.Owned.{tfs_write-IsTight}
use ex.Fs.Content.Still.{SameStore, tfs_close-SameStore, tfs_read-SameStore}
use ex.Fs.View.{Unchanged, view, file_of}
use ex.Fs.View.Lookups.{found-InUse}
use ex.Fs.View.Refine.{tfs_open-Step, tfs_unlink-Step, tfs_write-Step}
use ex.Fs.Trace.{
  Call, open_call, close_call, write_call, read_call, unlink_call, perform, perform-Finished,
}
use ex.Fs.Trace.Clean.{
  IsClean, IsNamed, SameStore-Lossless, SameStore-Unchanged, tfs_open-invalid, tfs_unlink-invalid,
  tfs_write-closed, tfs_read-closed,
}
use ex.Fs.Trace.Behave.{Does, opens, unlinks, writes, reads, closes, rejects}

-- What a clean call does.
pub record Outcome (s : Fs) (c : Call) (r : ℤ) (t : Fs) : Type 0 where
  pub valid : IsValid t
  pub lossless : Lossless s t
  pub does : Does s.fs_params.block_size (view s) (view t) c r

-- The store is the same.
still-Outcome :
    {pt : Pthread} {s : Fs} {c : Call} {r : ℤ} {t : Fs}
    → IsValid s
    → Finished pt t
    → SameStore s t
    → (Unchanged (view s) (view t) → Does s.fs_params.block_size (view s) (view t) c r)
    → Outcome s c r t
still-Outcome v f w does = record {
  valid = f.valid;
  lossless = SameStore-Lossless w;
  does = does (SameStore-Unchanged v f.valid w);
}

module _ {pt : Pthread} (posix : IsPosix pt) {s : Fs} (v : IsValid s) where
  open-Outcome :
      (name : Option Text) (mode : ℕ)
      → IsString name
      → Returns (λ _ t. Finished pt t) (tfs_open pt name mode s)
      → Returns (Outcome s (open_call name mode)) (tfs_open pt name mode s)
  open-Outcome name mode text fin = elim (Bool-cases (valid_pathname name)) [
    | inl e ↦
        Monad.mono
          (both fin (
            both (tfs_open-Opened posix name mode s v text e)
              (tfs_open-Step posix name mode s v text e)))
          (λ r t (f, (o, step)). record {
            valid = f.valid;
            lossless = Opened-Lossless o;
            does = opens e step;
          })
    | inr e ↦
        Monad.mono (both fin (tfs_open-invalid posix name mode s e))
          (λ r t (f, (q, w)). still-Outcome v f w (rejects e q))
  ]

  unlink-Outcome :
      (target : Option Text)
      → IsString target
      → Returns (λ _ t. Finished pt t) (tfs_unlink pt target s)
      → Returns (Outcome s (unlink_call target)) (tfs_unlink pt target s)
  unlink-Outcome target text fin = elim (Bool-cases (valid_pathname target)) [
    | inl e ↦
        Monad.mono
          (both fin (
            both (tfs_unlink-Unlinked posix target s v text e)
              (tfs_unlink-Step posix target s v text e)))
          (λ r t (f, (o, step)). record {
            valid = f.valid;
            lossless = Unlinked-Lossless o;
            does = unlinks e step;
          })
    | inr e ↦
        Monad.mono (both fin (tfs_unlink-invalid posix target s e))
          (λ r t (f, (q, w)). still-Outcome v f w (rejects e q))
  ]

  -- A write through a handle that is linked.
  linked_write-Outcome :
      (h w : ℕ) (buffer : List ℕ)
      → h < s.fs_params.max_open_files_count
      → s.free_open_file_entries h ≡ taken
      → IsNamed s h
      → IsWithin s h
      → w ≤ length buffer
      → w + s.fs_params.block_size < 2 ^ 64
      → Returns (λ _ t. Finished pt t) (tfs_write pt (pos h) buffer w s)
      → Returns (Outcome s (write_call (pos h) buffer w)) (tfs_write pt (pos h) buffer w s)
  linked_write-Outcome h w buffer lt t n within enough small fin =
      let u = found-InUse v n.name n.found in
      Monad.mono
        (both fin (
          both (tfs_write-Framed posix h w buffer s v lt t u enough small) (
            both (tfs_write-IsTight posix h w buffer s v lt t u enough small) (
              tfs_write-Step posix n.name h w buffer s v n.text n.found lt t within enough small))))
        (λ r z (f, (frame, (no_leak, step))). record {
          valid = f.valid;
          lossless = record { same_params = frame.same_params; no_leak = no_leak };
          does = writes n.name (s.open_file_table h).of_offset step;
        })

  linked_read :
      (h len : ℕ)
      → h < s.fs_params.max_open_files_count
      → s.free_open_file_entries h ≡ taken
      → ((g : ℕ) → pos h ≡ pos g → IsWithin s g)
      → Returns
          (λ r t.
            (r
              ≡ pos (
                  length
                    (take len (drop (s.open_file_table h).of_offset (content s (inode_of s h))))))
            × SameStore s t)
          (perform pt (read_call (pos h) len) s)
  linked_read h len lt t within =
      Monad.bind
        (both (tfs_read-Sliced posix h len s v lt t (within h refl))
          (tfs_read-SameStore posix (pos h) len s v within))
        (λ r z (sliced, w). returns (sliced.0 ∙ ap (λ (l : List ℕ). pos (length l)) sliced.1, w))

  linked_read-Outcome :
      (h len : ℕ)
      → h < s.fs_params.max_open_files_count
      → s.free_open_file_entries h ≡ taken
      → IsNamed s h
      → ((g : ℕ) → pos h ≡ pos g → IsWithin s g)
      → Returns (λ _ t. Finished pt t) (perform pt (read_call (pos h) len) s)
      → Returns (Outcome s (read_call (pos h) len)) (perform pt (read_call (pos h) len) s)
  linked_read-Outcome h len lt t n within fin =
      Monad.mono (both fin (linked_read h len lt t within)) (λ r z (f, (value, w)).
        still-Outcome v f w (
          reads n.name (s.open_file_table h).of_offset (content s (inode_of s h))
            (ap file_of n.found) value))

  -- `get_open_file_entry` has found an entry, or not.
  write_at-Outcome :
      (fhandle : ℤ) (buffer : List ℕ) (w : ℕ) {o : Option ℕ}
      → Entry s fhandle o
      → get_open_file_entry s fhandle ≡ o
      → IsClean s (write_call fhandle buffer w)
      → Returns (λ _ t. Finished pt t) (tfs_write pt fhandle buffer w s)
      → Returns (Outcome s (write_call fhandle buffer w)) (tfs_write pt fhandle buffer w s)
  write_at-Outcome fhandle buffer w closed q clean fin =
      Monad.mono (both fin (tfs_write-closed posix fhandle buffer w s q))
        (λ r t (f, (e, same)). still-Outcome v f same (rejects tt e))
  write_at-Outcome fhandle buffer w (opened h e lt t) q ((enough, small), link) fin =
      let (n, within) = link h e lt t in
      subst (λ g. Returns (Outcome s (write_call g buffer w)) (tfs_write pt g buffer w s)) (sym e)
        (linked_write-Outcome h w buffer lt t n within enough small
          (subst (λ g. Returns (λ _ t. Finished pt t) (tfs_write pt g buffer w s)) e fin))

  read_at-Outcome :
      (fhandle : ℤ) (len : ℕ) {o : Option ℕ}
      → Entry s fhandle o
      → get_open_file_entry s fhandle ≡ o
      → IsClean s (read_call fhandle len)
      → Returns (λ _ t. Finished pt t) (perform pt (read_call fhandle len) s)
      → Returns (Outcome s (read_call fhandle len)) (perform pt (read_call fhandle len) s)
  read_at-Outcome fhandle len closed q clean fin =
      Monad.mono
        (both fin (Monad.bind (tfs_read-closed posix fhandle len s q) (λ r z w. returns w)))
        (λ r t (f, (e, same)). still-Outcome v f same (rejects tt e))
  read_at-Outcome fhandle len (opened h e lt t) q (within, link) fin =
      let (n, here) = link h e lt t in
      subst (λ g. Returns (Outcome s (read_call g len)) (perform pt (read_call g len) s)) (sym e)
        (linked_read-Outcome h len lt t n (λ g eg. within g (e ∙ eg))
          (subst (λ g. Returns (λ _ t. Finished pt t) (perform pt (read_call g len) s)) e fin))

  pub perform-Outcome : (c : Call) → IsClean s c → Returns (Outcome s c) (perform pt c s)
  perform-Outcome (open_call name mode) (a, _) =
      open-Outcome name mode a (perform-Finished posix (open_call name mode) s v a)
  perform-Outcome (close_call fhandle) (a, _) =
      Monad.mono
        (both (perform-Finished posix (close_call fhandle) s v a)
          (tfs_close-SameStore posix fhandle s))
        (λ r t (f, w). still-Outcome v f w closes)
  perform-Outcome (write_call fhandle buffer w) clean =
      write_at-Outcome fhandle buffer w (get_open_file_entry-Entry s fhandle) refl clean
        (perform-Finished posix (write_call fhandle buffer w) s v clean.0)
  perform-Outcome (read_call fhandle len) clean =
      read_at-Outcome fhandle len (get_open_file_entry-Entry s fhandle) refl clean
        (perform-Finished posix (read_call fhandle len) s v clean.0)
  perform-Outcome (unlink_call target) (a, _) =
      unlink-Outcome target a (perform-Finished posix (unlink_call target) s v a)
