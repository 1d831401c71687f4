-- ===== src/Fs/Names.antt =====
-- The root directory of fs/state.c as a map from names to inumbers: what `find_in_dir` answers, and
-- how the writes of `add_dir_entry` and `clear_dir_entry` change it.
pub mod Rebind
pub mod Unlink
pub mod Handle
pub mod Existing
pub mod New
pub mod Open
pub mod Held
pub mod Stored
pub mod Reopen
use native.Mathlib.Decide.{ℕ_discrete}
use ex.Common.{
  ℕ, ◌<◌, ◌≡◌, ◌≢◌, subst, sym, ◌∙◌, ap, inl, inr, Bool, true, false, Bool-cases, Option-cases,
  arith,
}
use ex.Common.Int.{ℤ, pos, minus_one}
use ex.Common.First.{
  first_index, IsFirst, first_index-eq_some, first_index-eq_none, first_index-of_first,
  first_index-of_none,
}
use ex.Fs.State.Types.{TfsParams, AllocationState, Fs}
use ex.Fs.State.Memory.{Memory, Text, IsText}
use ex.Fs.State.Memory.Compare.{strncmp_eq_unique}
use ex.Fs.State.Monad.{done}
use ex.Fs.State.Dir.{d_name, is_named, is_unused, inumber_at, fill_entry, clear_entry, find_in_dir}
use ex.Fs.Valid.{IsValid, DirOk, entries_of, entry_inumber}
use ex.Fs.Valid.Entries.{
  SameEntry, Rewritten, fill_entry-Rewritten, fill_entry-ends, fill_entry-named,
  clear_entry-Rewritten, entry_inumber-same, is_named-same,
}
use ex.Fs.Valid.Dir.{named_used, named_text, unused_of_eq}
use ex.Fs.Valid.Fill.{IsNew}
use ex.Fs.Valid.Search.{find_in_dir-done}

-- The inumber that the directory of memory `m` has for a name, or -1.
abbrev pub lookup : TfsParams → Memory → Text → ℤ
lookup p m nm = inumber_at 0 m (first_index (entries_of p) (is_named 0 nm m))

-- The directory of `m'` has `z` for the name, and for other names what that of `m` has.
pub record IsRebound (p : TfsParams) (m m' : Memory) (nm : Text) (z : ℤ) : Type 0 where
  pub bound : lookup p m' nm ≡ z
  pub others : (x : Text) → IsText x → x ≢ nm → lookup p m' x ≡ lookup p m x

module _ (p : TfsParams) (m m' : Memory) (x : Text) where
  pub lookup-same :
      ((e : ℕ) → e < entries_of p → is_named 0 x m' e ≡ is_named 0 x m e)
      → ((e : ℕ)
          → e < entries_of p
          → is_named 0 x m e ≡ true
          → entry_inumber m' e ≡ entry_inumber m e)
      → lookup p m' x ≡ lookup p m x
  lookup-same tests numbers = elim (Option-cases (first_index (entries_of p) (is_named 0 x m))) [
    | inl q ↦
        let none_passes = first_index-eq_none (entries_of p) (is_named 0 x m) q in
        rw (
          q,
          first_index-of_none (entries_of p) (is_named 0 x m')
              (λ e lt. tests e lt ∙ none_passes e lt),
        )
    | inr (j, q) ↦
        let f = first_index-eq_some (entries_of p) (is_named 0 x m) q in
        let f' : IsFirst (is_named 0 x m') (entries_of p) j = record {
          below = f.below;
          passes = tests j f.below ∙ f.passes;
          before = λ i lt. tests i (omega (arith, f.below)) ∙ f.before i lt;
        } in
        rw (q, first_index-of_first (entries_of p) (is_named 0 x m') f')
          (numbers j f.below f.passes)
  ]

-- `find_in_dir` answers `z` for the name in `t`, and for every other text what it answered in `s`.
pub record IsRenamed (s t : Fs) (nm : Text) (z : ℤ) : Type 0 where
  pub bound : find_in_dir 0 nm t ≡ done z t
  pub others :
      (x : Text) (w : ℤ)
      → IsText x
      → x ≢ nm
      → find_in_dir 0 x s ≡ done w s
      → find_in_dir 0 x t ≡ done w t

-- `find_in_dir` answers in `t` what it answered in `s`.
abbrev pub SameNames : Fs → Fs → Type 0
SameNames s t = (x : Text) (w : ℤ) → find_in_dir 0 x s ≡ done w s → find_in_dir 0 x t ≡ done w t

done-inj : {s : Fs} {a b : ℤ} → done a s ≡ done b s → a ≡ b
done-inj e = cc

module _ {s t : Fs} (vs : IsValid s) (vt : IsValid t) (same : t.fs_params ≡ s.fs_params) where
  answer : (x : Text) (w : ℤ) → find_in_dir 0 x s ≡ done w s → lookup s.fs_params s.fs_data x ≡ w
  answer x w q = done-inj (sym (find_in_dir-done vs x) ∙ q)

  found : (x : Text) (w : ℤ) → lookup s.fs_params t.fs_data x ≡ w → find_in_dir 0 x t ≡ done w t
  found x w q = find_in_dir-done vt x ∙ ap (λ z. done z t) (ap (λ p. lookup p t.fs_data x) same ∙ q)

  pub IsRebound-IsRenamed :
      {nm : Text} {z : ℤ} → IsRebound s.fs_params s.fs_data t.fs_data nm z → IsRenamed s t nm z
  IsRebound-IsRenamed {nm} {z} r = record {
    bound = found nm z r.bound;
    others = λ x w text ne q. found x w (r.others x text ne ∙ answer x w q);
  }

  pub same_block-SameNames :
      ((a : ℕ) → a < s.fs_params.block_size → t.fs_data a ≡ s.fs_data a) → SameNames s t
  same_block-SameNames h x w q = found x w (
      lookup-same s.fs_params s.fs_data t.fs_data x
        (λ e lt. is_named-same s.fs_data t.fs_data e (agree e lt) x)
        (λ e lt n. entry_inumber-same s.fs_data t.fs_data e (agree e lt))
      ∙ answer x w q)
    where
      agree : (e : ℕ) → e < entries_of s.fs_params → SameEntry s.fs_data t.fs_data e
      agree e lt a l u = h a (omega arith)

  pub same_data-SameNames : t.fs_data ≡ s.fs_data → SameNames s t
  same_data-SameNames e x w q = found x w (ap (λ m. lookup s.fs_params m x) e ∙ answer x w q)

module _ {s : Fs} (v : IsValid s) (nm : Text) where
  pub find_in_dir-absent :
      ((e : ℕ) → e < entries_of s.fs_params → is_named 0 nm s.fs_data e ≡ false)
      → find_in_dir 0 nm s ≡ done minus_one s
  find_in_dir-absent h =
      find_in_dir-done v nm
      ∙ rw (first_index-of_none (entries_of s.fs_params) (is_named 0 nm s.fs_data) h)

  pub find_in_dir-present :
      {e k : ℕ}
      → IsFirst (is_named 0 nm s.fs_data) (entries_of s.fs_params) e
      → entry_inumber s.fs_data e ≡ pos k
      → find_in_dir 0 nm s ≡ done (pos k) s
  find_in_dir-present f q =
      find_in_dir-done v nm
      ∙ rw (first_index-of_first (entries_of s.fs_params) (is_named 0 nm s.fs_data) f, q)
