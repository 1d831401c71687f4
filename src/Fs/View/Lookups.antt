-- ===== src/Fs/View/Lookups.antt =====
-- The map of a well-formed file system, and what keeps it.
use ex.Common.{ℕ, ◌≡◌, ◌≢◌, refl, sym, ap, ◌∙◌, true, subst, some, List}
use ex.Common.Int.{ℤ, pos, minus_one}
use ex.Common.First.{IsFirst}
use ex.Fs.State.Types.{Fs}
use ex.Fs.State.Memory.{Text, IsText}
use ex.Fs.State.Memory.Compare.{strncmp_eq_unique}
use ex.Fs.State.Monad.{Out, done}
use ex.Fs.State.Dir.{d_name, is_named, find_in_dir}
use ex.Fs.Valid.{IsValid, InUse, entries_of, entry_inumber}
use ex.Fs.Valid.Dir.{named_used, named_text}
use ex.Fs.Valid.Search.{Lookup, absent, present, find_in_dir-Lookup}
use ex.Fs.Content.{content}
use ex.Fs.Content.Keep.{SameFiles, SameOthers}
use ex.Fs.Names.{IsRenamed, SameNames}
use ex.Fs.View.{view, file_of, Unchanged, IsUpdated}

-- The entry of a name that is found.
record Entry (s : Fs) (x : Text) (k : ℕ) : Type 0 where
  pub index : ℕ
  pub first : IsFirst (is_named 0 x s.fs_data) (entries_of s.fs_params) index
  pub number : entry_inumber s.fs_data index ≡ pos k
  pub in_use : InUse s.fs_params s.freeinode_ts k

module _ {s : Fs} (v : IsValid s) where
  entry_of : {x : Text} {r : Out ℤ} {k : ℕ} → Lookup v x r → r ≡ done (pos k) s → Entry s x k
  entry_of (absent h) q = cc
  entry_of {k = k} (present e j f n u) q =
      let same : j ≡ k = cc in
      subst (Entry s _) same (record { index = e; first = f; number = n; in_use = u })

  pub found-InUse :
      (x : Text) {k : ℕ} → find_in_dir 0 x s ≡ done (pos k) s → InUse s.fs_params s.freeinode_ts k
  found-InUse x q = (entry_of (find_in_dir-Lookup v x) q).in_use

  -- Two names have two files.
  pub found_unique :
      (x y : Text) {k : ℕ}
      → IsText x
      → IsText y
      → find_in_dir 0 x s ≡ done (pos k) s
      → find_in_dir 0 y s ≡ done (pos k) s
      → x ≡ y
  found_unique x y tx ty qx qy =
      let a = entry_of (find_in_dir-Lookup v x) qx in
      let b = entry_of (find_in_dir-Lookup v y) qy in
      let used = named_used x s.fs_data a.index a.first.passes in
      let same : a.index ≡ b.index =
        v.dir.numbers_apart a.index b.index a.first.below b.first.below used
          (a.number ∙ sym b.number) in
      let ends = (v.dir.entry a.index a.first.below used).ends in
      strncmp_eq_unique s.fs_data (d_name 0 a.index) x y 39 tx ty ends
        (named_text x s.fs_data a.index a.first.passes)
        (named_text y s.fs_data a.index
          (subst (λ e. is_named 0 y s.fs_data e ≡ true) (sym same) b.first.passes))

  kept :
      {t : Fs} {x : Text} {r : Out ℤ}
      → Lookup v x r
      → r ≡ find_in_dir 0 x s
      → ((w : ℤ) → find_in_dir 0 x s ≡ done w s → find_in_dir 0 x t ≡ done w t)
      → ((k : ℕ)
          → find_in_dir 0 x s ≡ done (pos k) s
          → InUse s.fs_params s.freeinode_ts k
          → content t k ≡ content s k)
      → view t x ≡ view s x
  kept (absent h) q names files = ap file_of (names minus_one (sym q)) ∙ ap file_of q
  kept (present e k f n u) q names files =
      ap file_of (names (pos k) (sym q)) ∙ ap some (files k (sym q) u) ∙ ap file_of q

  -- A name that is found as before, and whose file has its bytes, has them in the map.
  pub view-kept :
      {t : Fs} (x : Text)
      → ((w : ℤ) → find_in_dir 0 x s ≡ done w s → find_in_dir 0 x t ≡ done w t)
      → ((k : ℕ)
          → find_in_dir 0 x s ≡ done (pos k) s
          → InUse s.fs_params s.freeinode_ts k
          → content t k ≡ content s k)
      → view t x ≡ view s x
  view-kept x names files = kept (find_in_dir-Lookup v x) refl names files

  -- No name and no file has changed.
  pub SameNames-Unchanged : {t : Fs} → SameNames s t → SameFiles s t → Unchanged (view s) (view t)
  SameNames-Unchanged names files x text = view-kept x (names x) (λ k q. files k)

  -- The file of one name may have changed.
  pub SameOthers-IsUpdated :
      {t : Fs} {nm : Text} {k : ℕ} (c : List ℕ)
      → IsText nm
      → find_in_dir 0 nm s ≡ done (pos k) s
      → SameNames s t
      → SameOthers k s t
      → content t k ≡ c
      → IsUpdated (view s) (view t) nm (some c)
  SameOthers-IsUpdated {nm = nm} {k = k} c text q names files here = record {
    at_name = ap file_of (names nm (pos k) q) ∙ ap some here;
    others = λ x tx ne. view-kept x (names x) (λ j qj u.
        files j
          (λ e.
            ne (found_unique x nm tx text (subst (λ i. find_in_dir 0 x s ≡ done (pos i) s) e qj) q))
          u);
  }

  -- One name is bound to something else, and the other files stay.
  pub IsRenamed-IsUpdated :
      {t : Fs} {nm : Text} {z : ℤ}
      → IsRenamed s t nm z
      → ((k : ℕ)
          → (x : Text) → IsText x
          → x ≢ nm
          → find_in_dir 0 x s ≡ done (pos k) s
          → InUse s.fs_params s.freeinode_ts k
          → content t k ≡ content s k)
      → IsUpdated (view s) (view t) nm (file_of (done z t))
  IsRenamed-IsUpdated r files = record {
    at_name = ap file_of r.bound;
    others = λ x tx ne. view-kept x (λ w. r.others x w tx ne) (λ k q u. files k x tx ne q u);
  }
