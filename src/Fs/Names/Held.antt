-- ===== src/Fs/Names/Held.antt =====
-- Handles of fs/operations.c that `tfs_open` has just returned, for a file under a name.
use ex.Common.{
  update_self, ℕ, ◌<◌, ◌≡◌, refl, ap, ◌∙◌, subst, true, false, length, take, drop, arith, Option,
  if◌then◌else◌,
}
use ex.Common.Int.{ℤ, pos, minus_one, pos_part}
use ex.Fs.State.Types.{Fs, taken, free, OpenFileEntry, is_free}
use ex.Fs.State.Memory.{Text}
use ex.Fs.State.Monad
use ex.Fs.State.Monad.{done, both, Returns, returns}
use ex.Fs.State.Dir.{find_in_dir}
use ex.Fs.Ops.Mutex.{Pthread, IsPosix, valid_pathname, skip_slash}
use ex.Fs.Ops.Open.{tfs_open, truncates, appends}
use ex.Fs.Ops.Transfer.{tfs_read}
use ex.Fs.Valid.{IsValid}
use ex.Fs.Safe.Finish.{IsString}
use ex.Fs.Safe.Open.{tfs_open-Finished}
use ex.Fs.Safe.Read.{inode_of, IsWithin}
use ex.Fs.Names.Handle.{Handle, table_full, handle}
use ex.Fs.Names.Existing.{Opened, existing, made, refused}
use ex.Fs.Names.Open.{tfs_open-Opened}
use ex.Fs.Content.{content}
use ex.Fs.Content.Read.{tfs_read-Sliced}

-- The handle `h` is open at the start of the file `k`, which has the name.
pub record Held (nm : Text) (s : Fs) (h k : ℕ) : Type 0 where
  pub valid : IsValid s
  pub below : h < s.fs_params.max_open_files_count
  pub is_open : s.free_open_file_entries h ≡ taken
  pub entry : s.open_file_table h ≡ record { of_inumber = pos k; of_offset = 0 }
  pub found : find_in_dir 0 nm s ≡ done (pos k) s

pub Held-file : {nm : Text} {s : Fs} {h k : ℕ} → Held nm s h k → inode_of s h ≡ k
Held-file a = ap (λ (e : OpenFileEntry). pos_part e.of_inumber) a.entry

pub Held-offset :
    {nm : Text} {s : Fs} {h k : ℕ} → Held nm s h k → (s.open_file_table h).of_offset ≡ 0
Held-offset a = ap (λ (e : OpenFileEntry). e.of_offset) a.entry

pub Held-IsWithin : {nm : Text} {s : Fs} {h k : ℕ} → Held nm s h k → IsWithin s h
Held-IsWithin a = omega (arith, Held-offset a)

-- The handle that is returned, if one is.
pub data HandleFor (nm : Text) (s : Fs) (k : ℕ) : ℤ → Fs → Type 0 where
  no_handle :
      {t : Fs}
      → ((i : ℕ)
          → i < s.fs_params.max_open_files_count
          → is_free (s.free_open_file_entries i) ≡ false)
      → HandleFor nm s k minus_one t
  held : {t : Fs} (h : ℕ) → Held nm t h k → HandleFor nm s k (pos h) t

pub Handle-HandleFor :
    {nm : Text} {s : Fs} {k o : ℕ} {r : ℤ} {t : Fs}
    → IsValid t
    → t.fs_params ≡ s.fs_params
    → find_in_dir 0 nm t ≡ done (pos k) t
    → o ≡ 0
    → Handle s k o r t
    → HandleFor nm s k r t
Handle-HandleFor v same found z (table_full h same') = no_handle h
Handle-HandleFor {s = s} {k = k} v same found z (handle h first t e) = held h (record {
  valid = v;
  below = rw same first.below;
  is_open = ap (λ g. g h) t ∙ update_self s.free_open_file_entries h taken;
  entry =
      ap (λ g. g h) e
      ∙ update_self s.open_file_table h _
      ∙ ap (λ i. record { of_inumber = pos k; of_offset = i }) z;
  found = found;
})

-- An open that empties the file, or creates it.
pub data Emptied (nm : Text) (s : Fs) (mode : ℕ) : ℤ → Fs → Type 0 where
  not_emptied : {t : Fs} → Opened s nm mode minus_one t → Emptied nm s mode minus_one t
  emptied :
      {t : Fs} (h k : ℕ)
      → Opened s nm mode (pos h) t
      → Held nm t h k
      → (t.inode_table k).i_size ≡ 0
      → Emptied nm s mode (pos h) t

HandleFor-Emptied :
    {nm : Text} {s : Fs} {k mode : ℕ} {r : ℤ} {t : Fs}
    → Opened s nm mode r t
    → (t.inode_table k).i_size ≡ 0
    → HandleFor nm s k r t
    → Emptied nm s mode r t
HandleFor-Emptied o size (no_handle h) = not_emptied o
HandleFor-Emptied {k = k} o size (held h a) = emptied h k o a size

Opened-Emptied :
    {nm : Text} {s : Fs} {mode : ℕ} {r : ℤ} {t : Fs}
    → truncates mode ≡ true
    → IsValid t
    → Opened s nm mode r t
    → Opened s nm mode r t
    → Emptied nm s mode r t
Opened-Emptied {nm} {s} {mode} {r} {t} e v o (existing k q names size here files l h) =
    let none : (t.inode_table k).i_size ≡ 0 = size ∙ rw e refl in
    let start : (if appends mode then (t.inode_table k).i_size else 0) ≡ 0 = ground (arith, none) in
    HandleFor-Emptied o none (Handle-HandleFor v l.same_params (names nm (pos k) q) start h)
Opened-Emptied e v o (made k q creating names size files l h) =
    HandleFor-Emptied o size (Handle-HandleFor v l.same_params names.bound refl h)
Opened-Emptied e v o (refused q names files l same why) = not_emptied o

-- An open with mode 0 of a file that is there, with a free handle.
pub record Reopened (nm : Text) (s : Fs) (k : ℕ) (r : ℤ) (t : Fs) : Type 0 where
  pub again : ℕ
  pub value : r ≡ pos again
  pub hold : Held nm t again k
  pub same : content t k ≡ content s k

HandleFor-Reopened :
    {nm : Text} {s : Fs} {k : ℕ} {r : ℤ} {t : Fs} (h : ℕ)
    → h < s.fs_params.max_open_files_count
    → s.free_open_file_entries h ≡ free
    → content t k ≡ content s k
    → HandleFor nm s k r t
    → Reopened nm s k r t
HandleFor-Reopened {s = s} h lt f same (no_handle full) =
    let used : is_free (s.free_open_file_entries h) ≡ false = full h lt in
    absurd (cc (used, ap is_free f))
HandleFor-Reopened h lt f same (held g a) = record {
  again = g;
  value = refl;
  hold = a;
  same = same;
}

Opened-Reopened :
    {nm : Text} {s : Fs} {k : ℕ} {r : ℤ} {t : Fs} (h : ℕ)
    → h < s.fs_params.max_open_files_count
    → s.free_open_file_entries h ≡ free
    → find_in_dir 0 nm s ≡ done (pos k) s
    → IsValid t
    → Opened s nm 0 r t
    → Reopened nm s k r t
Opened-Reopened {nm} {s} {k} {r} {t} h lt f there v (existing j q names size here files l hd) =
    let same : j ≡ k = cc in
    HandleFor-Reopened h lt f (subst (λ i. content t i ≡ content s i) same here) (
      Handle-HandleFor v l.same_params (names nm (pos k) there) refl
        (subst (λ i. Handle s i 0 r t) same hd))
Opened-Reopened h lt f there v (made k q creating names size files l hd) = absurd cc
Opened-Reopened h lt f there v (refused q names files l same why) = absurd cc

module _ {pt : Pthread} (posix : IsPosix pt) (name : Option Text) (s : Fs) (v : IsValid s)
    (text : IsString name) (valid : valid_pathname name ≡ true) where
  pub tfs_open-Emptied :
      (mode : ℕ)
      → truncates mode ≡ true
      → Returns (Emptied (skip_slash name) s mode) (tfs_open pt name mode s)
  tfs_open-Emptied mode e =
      Monad.mono
        (both (tfs_open-Finished posix name mode s v text)
          (tfs_open-Opened posix name mode s v text valid))
        (λ r t (f, o). Opened-Emptied e f.valid o o)

  pub tfs_open-Reopened :
      {k : ℕ} (h : ℕ)
      → h < s.fs_params.max_open_files_count
      → s.free_open_file_entries h ≡ free
      → find_in_dir 0 (skip_slash name) s ≡ done (pos k) s
      → Returns (Reopened (skip_slash name) s k) (tfs_open pt name 0 s)
  tfs_open-Reopened h lt f there =
      Monad.mono
        (both (tfs_open-Finished posix name 0 s v text)
          (tfs_open-Opened posix name 0 s v text valid))
        (λ r t (w, o). Opened-Reopened h lt f there w.valid o)

module _ {pt : Pthread} (posix : IsPosix pt) where
  -- A read from the start of the file.
  pub tfs_read-Held :
      {nm : Text} {s : Fs} {g k : ℕ} (len : ℕ)
      → Held nm s g k
      → Returns
          (λ (r, bytes) t. (r ≡ pos (length bytes)) × (bytes ≡ take len (content s k)))
          (tfs_read pt (pos g) len s)
  tfs_read-Held {s = s} {g} {k} len a =
      Monad.mono (tfs_read-Sliced posix g len s a.valid a.below a.is_open (Held-IsWithin a))
        (λ (r, bytes) t (value, slice, moved, files). (
          value,
          slice
              ∙ ap (take len) (
                  ap (λ i. drop i (content s (inode_of s g))) (Held-offset a)
                  ∙ ap (λ i. content s i) (Held-file a)),
        ))
