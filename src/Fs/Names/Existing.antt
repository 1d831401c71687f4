-- ===== src/Fs/Names/Existing.antt =====
-- What `tfs_open` of fs/operations.c leaves behind, and its branch for a file that exists.
use ex.Common.{
  ℕ, Bool, ◌<◌, ◌≤◌, ◌≡◌, inl, inr, refl, subst, sym, ◌∙◌, ap, true, false, Bool-cases, length,
  arith, ◌≢◌, [], if◌then◌else◌,
}
use ex.Common.Int.{ℤ, pos, minus_one}
use ex.Fs.State.Types.{Fs, Inode, is_free}
use ex.Fs.State.Memory.{Text}
use ex.Fs.State.Monad
use ex.Fs.State.Monad.{M, Out, done, Returns, returns, and_then, ◌>>=◌, ◌>>◌}
use ex.Fs.State.Dir.{is_unused, find_in_dir}
use ex.Fs.Ops.Mutex.{Pthread, IsPosix}
use ex.Fs.Ops.Open.{open_finish, open_existing, truncates, appends, creates, truncate_inode}
use ex.Fs.Valid.{IsValid, InUse, entries_of}
use ex.Fs.Valid.Tight.{IsTight, Lossless, same-IsTight, truncated-AllOwned}
use ex.Fs.Valid.Delete.{truncate_inode-Truncated}
use ex.Fs.Safe.Finish.{IsValid-locked}
use ex.Fs.Safe.Existing.{inode_get-done}
use ex.Fs.Names.{IsRenamed, SameNames, same_data-SameNames}
use ex.Fs.Names.Handle.{SameHandles, Handle, Handle-same, Ended, open_finish-Ended}
use ex.Fs.Content.{content}
use ex.Fs.Content.Keep.{SameOthers, SameFiles, SameBlocks, content-same, content-empty}

-- Why no file is opened.
pub data Refusal (s : Fs) (nm : Text) (mode : ℕ) : Type 0 where
  no_create : creates mode ≡ false → Refusal s nm mode
  no_inode :
      ((i : ℕ) → i < s.fs_params.max_inode_count → is_free (s.freeinode_ts i) ≡ false)
      → Refusal s nm mode
  no_entry :
      ((e : ℕ) → e < entries_of s.fs_params → is_unused 0 s.fs_data e ≡ false) → Refusal s nm mode
  long_name : 39 < length nm → Refusal s nm mode

-- The value and the state that `tfs_open` of a name leaves behind.
pub data Opened (s : Fs) (nm : Text) (mode : ℕ) : ℤ → Fs → Type 0 where
  existing :
      {r : ℤ} {t : Fs} (k : ℕ)
      → find_in_dir 0 nm s ≡ done (pos k) s
      → SameNames s t
      → (t.inode_table k).i_size ≡ (if truncates mode then 0 else (s.inode_table k).i_size)
      → content t k ≡ (if truncates mode then [] else content s k)
      → SameOthers k s t
      → Lossless s t
      → Handle s k (if appends mode then (t.inode_table k).i_size else 0) r t
      → Opened s nm mode r t
  made :
      {r : ℤ} {t : Fs} (k : ℕ)
      → find_in_dir 0 nm s ≡ done minus_one s
      → creates mode ≡ true
      → IsRenamed s t nm (pos k)
      → (t.inode_table k).i_size ≡ 0
      → SameFiles s t
      → Lossless s t
      → Handle s k 0 r t
      → Opened s nm mode r t
  refused :
      {t : Fs}
      → find_in_dir 0 nm s ≡ done minus_one s
      → SameNames s t
      → SameFiles s t
      → Lossless s t
      → SameHandles s t
      → Refusal s nm mode
      → Opened s nm mode minus_one t

pub Opened-Lossless :
    {s : Fs} {nm : Text} {mode : ℕ} {r : ℤ} {t : Fs} → Opened s nm mode r t → Lossless s t
Opened-Lossless (existing k q names size here files lossless h) = lossless
Opened-Lossless (made k q creating names size files lossless h) = lossless
Opened-Lossless (refused q names files lossless same why) = lossless

-- What the truncation, if the mode asks for one, does to a state `s`.
record Prepared (s : Fs) (k mode : ℕ) (t : Fs) : Type 0 where
  pub valid : IsValid t
  pub in_use : InUse t.fs_params t.freeinode_ts k
  pub same_params : t.fs_params ≡ s.fs_params
  pub same_data : t.fs_data ≡ s.fs_data
  pub same_handles : SameHandles s t
  pub size : (t.inode_table k).i_size ≡ (if truncates mode then 0 else (s.inode_table k).i_size)
  pub node : truncates mode ≡ false → t.inode_table k ≡ s.inode_table k
  pub others : (j : ℕ) → j ≢ k → t.inode_table j ≡ s.inode_table j
  pub no_leak : IsTight s → IsTight t

prepare-Prepared :
    {s : Fs} (k mode : ℕ)
    → IsValid s
    → InUse s.fs_params s.freeinode_ts k
    → Returns
        (λ _ t. Prepared s k mode t)
        ((if truncates mode then truncate_inode k else Monad.pure tt) s)
prepare-Prepared {s} k mode v u = elim (Bool-cases (truncates mode)) [
  | inl e ↦ rw e (
      Monad.mono (truncate_inode-Truncated v u) (λ _ t w. record {
        valid = w.valid;
        in_use = w.in_use;
        same_params = w.same_params;
        same_data = w.same_data;
        same_handles = (w.same_entries, w.same_handles);
        size = rw (w.size, e) refl;
        node = λ f. cc (e, f);
        others = w.others;
        no_leak = λ tight.
            rw (w.same_params, w.same_inodes, w.blocks) (truncated-AllOwned k w.others tight);
      }))
  | inr e ↦ rw e (
      returns (record {
        valid = v;
        in_use = u;
        same_params = refl;
        same_data = refl;
        same_handles = (refl, refl);
        size = rw e;
        node = λ f. refl;
        others = λ j ne. refl;
        no_leak = λ tight. tight;
      }))
]

module _ {pt : Pthread} (posix : IsPosix pt) where
  module _ {s : Fs} (v : IsValid s) (b : Bool) (nm : Text) (mode : ℕ) where
    -- The branch for a file that exists.
    pub open_existing-Opened :
        (k : ℕ)
        → InUse s.fs_params s.freeinode_ts k
        → find_in_dir 0 nm s ≡ done (pos k) s
        → Returns (Opened s nm mode) (open_existing pt (pos k) mode (record s { locked = b }))
    unfolding open_existing
    open_existing-Opened k u q =
        rw (inode_get-done (record s { locked = b }) k u.below)
          (Monad.bind (prepare-Prepared k mode (IsValid-locked b v) u) (λ _ t w. opened_from t w))
      where
        size_le :
            (t : Fs)
            → IsValid t
            → InUse t.fs_params t.freeinode_ts k
            → (if appends mode then (t.inode_table k).i_size else 0) ≤ t.fs_params.block_size
        size_le t vt ut = elim (Bool-cases (appends mode)) [
          | inl e ↦ rw e (vt.files.file k ut).size_le
          | inr e ↦ rw e (omega arith)
        ]

        blocks :
            (t t' : Fs) {o : ℕ} {r : ℤ}
            → Prepared (record s { locked = b }) k mode t
            → Ended t k o r t'
            → SameBlocks s.fs_params s.fs_data t'.fs_data
        blocks t t' w e a le = ap (λ m. m a) (e.same_data ∙ w.same_data)

        content_of :
            (t t' : Fs) {o : ℕ} {r : ℤ}
            → Prepared (record s { locked = b }) k mode t
            → Ended t k o r t'
            → content t' k ≡ (if truncates mode then [] else content s k)
        content_of t t' w e = elim (Bool-cases (truncates mode)) [
          | inl f ↦ rw f (
              content-empty t' k
                (ap (λ (g : ℕ → Inode). (g k).i_size) e.same_nodes ∙ w.size ∙ rw f refl))
          | inr f ↦ rw f (
              content-same t' k v (e.same_params ∙ w.same_params) (blocks t t' w e)
                (ap (λ (g : ℕ → Inode). g k) e.same_nodes ∙ w.node f) u)
        ]

        opened_from :
            (t : Fs)
            → Prepared (record s { locked = b }) k mode t
            → Returns
                (Opened s nm mode)
                (open_finish pt (pos k) (if appends mode then (t.inode_table k).i_size else 0) t)
        opened_from t w =
            Monad.mono (open_finish-Ended posix k _ w.valid w.in_use (size_le t w.valid w.in_use))
              (λ r t' e.
                let size : (t'.inode_table k).i_size ≡ (t.inode_table k).i_size =
                  ap (λ (g : ℕ → Inode). (g k).i_size) e.same_nodes in
                existing k q
                  (same_data-SameNames v e.valid (e.same_params ∙ w.same_params)
                    (e.same_data ∙ w.same_data))
                  (size ∙ w.size) (content_of t t' w e)
                  (λ j ne uj.
                    content-same t' j v (e.same_params ∙ w.same_params) (blocks t t' w e)
                      (ap (λ (g : ℕ → Inode). g j) e.same_nodes ∙ w.others j ne) uj)
                  (record {
                    same_params = e.same_params ∙ w.same_params;
                    no_leak = λ tight.
                        same-IsTight t t' e.same_params e.same_nodes e.same_inodes e.same_blocks
                          (w.no_leak tight);
                  })
                  (subst (λ z. Handle s k (if appends mode then z else 0) r t') (sym size)
                    (Handle-same s w.same_params w.same_handles e.handle_of)))
