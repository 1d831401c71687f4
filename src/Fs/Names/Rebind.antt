-- ===== src/Fs/Names/Rebind.antt =====
-- How the writes of `add_dir_entry` and `clear_dir_entry` change what the directory has for a name.
use native.Mathlib.Decide.{ℕ_discrete}
use ex.Common.{ℕ, ◌<◌, ◌≡◌, ◌≢◌, subst, sym, ◌∙◌, ap, inl, inr, true, false, Bool-cases, arith}
use ex.Common.Int.{pos, minus_one}
use ex.Common.First.{IsFirst, first_index-of_first, first_index-of_none}
use ex.Fs.State.Types.{TfsParams, AllocationState}
use ex.Fs.State.Memory.{Memory, Text, IsText}
use ex.Fs.State.Memory.Compare.{strncmp_eq_unique}
use ex.Fs.State.Dir.{d_name, is_named, fill_entry, clear_entry}
use ex.Fs.Valid.{DirOk, entries_of, entry_inumber}
use ex.Fs.Valid.Entries.{
  Rewritten, fill_entry-Rewritten, fill_entry-ends, fill_entry-named, clear_entry-Rewritten,
  entry_inumber-same, is_named-same,
}
use ex.Fs.Valid.Dir.{named_used, named_text, unused_of_eq}
use ex.Fs.Valid.Fill.{IsNew}
use ex.Fs.Names.{IsRebound, lookup-same}

unused-unnamed :
    (x : Text) (m : Memory) (e : ℕ) → entry_inumber m e ≡ minus_one → is_named 0 x m e ≡ false
unused-unnamed x m e q = rw (unused_of_eq m e q)

module _ {p : TfsParams} {ns : ℕ → AllocationState} {m : Memory} (v : DirOk p ns m) where
  -- Filling an unused entry binds its name.
  pub fill_entry-IsRebound :
      {i : ℕ} {nm : Text} {k : ℕ}
      → IsNew p ns m i nm k
      → IsRebound p m (fill_entry 0 i nm (pos k) m) nm (pos k)
  fill_entry-IsRebound {i} {nm} {k} new = record {
    bound = rw (first_index-of_first (entries_of p) (is_named 0 nm m') here) w.number;
    others = λ x t ne.
        lookup-same p m m' x (λ e lt. test x t ne e (ℕ_discrete e i)) (λ e lt. number x e);
  }
    where
      m' : Memory
      m' = fill_entry 0 i nm (pos k) m

      w : Rewritten m (fill_entry 0 i nm (pos k) m) i (pos k)
      w = fill_entry-Rewritten m i nm (pos k) new.fits

      was_unused : (x : Text) → is_named 0 x m i ≡ false
      was_unused x = rw new.slot.passes

      here : IsFirst (is_named 0 nm (fill_entry 0 i nm (pos k) m)) (entries_of p) i
      here = record {
        below = new.slot.below;
        passes = rw (w.number, fill_entry-named m i nm (pos k) new.length_le);
        before = λ e lt.
            is_named-same m m' e (w.others e (omega arith)) nm
            ∙ new.name_new e (omega (arith, new.slot.below));
      }

      number : (x : Text) (e : ℕ) → is_named 0 x m e ≡ true → entry_inumber m' e ≡ entry_inumber m e
      number x e h =
          entry_inumber-same m m' e
            (w.others e (λ q. absurd (cc (h, was_unused x, ap (is_named 0 x m) q))))

      not_here : (x : Text) → IsText x → x ≢ nm → is_named 0 x m' i ≡ false
      not_here x t ne = elim (Bool-cases (is_named 0 x m' i)) [
        | inl h ↦ absurd (
            ne (
              strncmp_eq_unique m' (d_name 0 i) x nm 39 t new.text (fill_entry-ends m i nm (pos k))
                (named_text x m' i h) (fill_entry-named m i nm (pos k) new.length_le)))
        | inr h ↦ h
      ]

      test :
          (x : Text)
          → IsText x
          → x ≢ nm
          → (e : ℕ) → Dec (e ≡ i)
          → is_named 0 x m' e ≡ is_named 0 x m e
      test x t ne e (yes q) =
          subst (λ j. is_named 0 x m' j ≡ is_named 0 x m j) (sym q)
            (not_here x t ne ∙ sym (was_unused x))
      test x t ne e (no q) = is_named-same m m' e (w.others e q) x

  -- Clearing the entry of a name removes the name.
  pub clear_entry-IsRebound :
      {i : ℕ} {nm : Text}
      → IsText nm
      → IsFirst (is_named 0 nm m) (entries_of p) i
      → IsRebound p m (clear_entry 0 i m) nm minus_one
  clear_entry-IsRebound {i} {nm} text f = record {
    bound = rw (
        first_index-of_none (entries_of p) (is_named 0 nm m') (λ e lt. gone e lt (ℕ_discrete e i)));
    others = λ x t ne.
        lookup-same p m m' x (λ e lt. test x t ne e (ℕ_discrete e i)) (λ e lt. number x t ne e);
  }
    where
      m' : Memory
      m' = clear_entry 0 i m

      w : Rewritten m (clear_entry 0 i m) i minus_one
      w = clear_entry-Rewritten m i

      cleared : (x : Text) → is_named 0 x m' i ≡ false
      cleared x = unused-unnamed x m' i w.number

      gone : (e : ℕ) → e < entries_of p → Dec (e ≡ i) → is_named 0 nm m' e ≡ false
      gone e lt (yes q) = subst (λ j. is_named 0 nm m' j ≡ false) (sym q) (cleared nm)
      gone e lt (no q) =
          is_named-same m m' e (w.others e q) nm ∙ (elim (Bool-cases (is_named 0 nm m e)) [
            | inl h ↦ absurd (q (v.names_apart e i nm text lt f.below h f.passes))
            | inr h ↦ h
          ])

      not_here : (x : Text) → IsText x → x ≢ nm → is_named 0 x m i ≡ false
      not_here x t ne = elim (Bool-cases (is_named 0 x m i)) [
        | inl h ↦
            let o = v.entry i f.below (named_used nm m i f.passes) in
            absurd (
              ne (
                strncmp_eq_unique m (d_name 0 i) x nm 39 t text o.ends (named_text x m i h)
                  (named_text nm m i f.passes)))
        | inr h ↦ h
      ]

      test :
          (x : Text)
          → IsText x
          → x ≢ nm
          → (e : ℕ) → Dec (e ≡ i)
          → is_named 0 x m' e ≡ is_named 0 x m e
      test x t ne e (yes q) =
          subst (λ j. is_named 0 x m' j ≡ is_named 0 x m j) (sym q)
            (cleared x ∙ sym (not_here x t ne))
      test x t ne e (no q) = is_named-same m m' e (w.others e q) x

      number :
          (x : Text)
          → IsText x
          → x ≢ nm
          → (e : ℕ) → is_named 0 x m e ≡ true
          → entry_inumber m' e ≡ entry_inumber m e
      number x t ne e h =
          entry_inumber-same m m' e
            (w.others e (λ q. absurd (cc (h, not_here x t ne, ap (is_named 0 x m) q))))
