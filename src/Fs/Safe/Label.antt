-- ===== src/Fs/Safe/Label.antt =====
-- The loop of `inode_create` in fs/state.c that labels the entries of a new directory as unused.
use native.Mathlib.Decide.{ℕ_discrete}
use ex.Common.{ℕ, zero, suc, ◌+◌, ◌<◌, ◌≤◌, ◌≡◌, inl, refl, subst, sym, ◌∙◌, arith}
use ex.Common.Int.{minus_one}
use ex.Fs.State.Memory.{Memory, store_int}
use ex.Fs.State.Memory.Bytes.{load_int-Agree, load-store_int, store_int-outside}
use ex.Fs.State.Tables.{label_empty}
use ex.Fs.State.Dir.{d_inumber}
use ex.Fs.Valid.{entry_inumber}

-- Bytes below the inumber of entry `i` are not written.
label_empty-below : (k i p : ℕ) (m : Memory) → p < d_inumber 0 i → label_empty k i 0 m p ≡ m p
unfolding label_empty
label_empty-below zero i p m h = refl
label_empty-below (suc k) i p m h =
    label_empty-below k (i + 1) p _ (omega arith)
    ∙ store_int-outside m (d_inumber 0 i) minus_one p (inl h)

-- The loop labels every entry as unused.
pub label_empty-unused :
    (k i e : ℕ) (m : Memory) → i ≤ e → e < i + k → entry_inumber (label_empty k i 0 m) e ≡ minus_one
unfolding label_empty
label_empty-unused zero i e m le lt = absurd (omega arith)
label_empty-unused (suc k) i e m le lt = elim (ℕ_discrete e i) [
  | yes q ↦
      subst
        (λ j.
          entry_inumber (label_empty k (i + 1) 0 (store_int m (d_inumber 0 i) minus_one)) j
          ≡ minus_one)
        (sym q)
        (load_int-Agree (store_int m (d_inumber 0 i) minus_one) _ (d_inumber 0 i)
            (λ p l u. label_empty-below k (i + 1) p _ (omega arith))
          ∙ load-store_int m (d_inumber 0 i) minus_one (omega arith))
  | no ne ↦ label_empty-unused k (i + 1) e _ (omega arith) (omega arith)
]
