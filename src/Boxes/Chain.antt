-- ===== src/Boxes/Chain.antt =====
-- Chains of boxes, and the order of their names.
use native.Mathlib.Decide.{ℕ_discrete}
use ex.Common.{◌≡◌, ◌≢◌, refl, true, false, List, [], ◌∷◌, arith, update-ne, update_self, All}
use ex.Common.Int.{pos, is_nonneg, ◌==ℤ◌}
use ex.Boxes.{Text, Ptr, null, Box, Heap, strcmp, with_next}

-- From `p` the `next` pointers lead through the boxes at `ps` to NULL.
abbrev pub IsChain : Heap → Ptr → List Ptr → Type 0
IsChain h p [] = p ≡ null
IsChain h p (a ∷ ps) = (p ≡ a) × (a ≢ null) × IsChain h (h a).next ps

abbrev pub Avoids : Ptr → List Ptr → Type 0
Avoids p = All (λ a. a ≢ p)

-- A chain survives a write to a box outside it.
pub IsChain-with_next :
    (h : Heap) (q r : Ptr) (p : Ptr) (ps : List Ptr)
    → Avoids q ps
    → IsChain h p ps
    → IsChain (with_next q r h) p ps
IsChain-with_next h q r p [] av c = c
IsChain-with_next h q r p (a ∷ ps) av c = (
  c.0,
  c.1,
  rw (update-ne h q (record (h q) { next = r }) a av.0)
      (IsChain-with_next h q r (h a).next ps av.1 c.2),
)

-- All of a box but its link.
abbrev pub payload : Box → Box
payload b = record b { next = null }

pub payload-with_next : (h : Heap) (q r a : Ptr) → payload (with_next q r h a) ≡ payload (h a)
payload-with_next h q r a = elim (ℕ_discrete a q) [
  | yes e ↦ rw (e, update_self h q (record (h q) { next = r }))
  | no ne ↦ rw (update-ne h q (record (h q) { next = r }) a ne)
]

-- No address stands twice.
abbrev pub Distinct : List Ptr → Type 0
Distinct [] = Unit
Distinct (a ∷ ps) = Avoids a ps × Distinct ps

-- `strcmp` gives 0 on equal texts only.
pub strcmp-eq_zero : (s t : Text) → (strcmp s t ==ℤ pos 0) ≡ true → s ≡ t
unfolding strcmp
strcmp-eq_zero [] [] h = refl
strcmp-eq_zero [] (d ∷ t) h = cc
strcmp-eq_zero (c ∷ s) [] h = absurd (ground arith)
strcmp-eq_zero (c ∷ s) (d ∷ t) h = ground (arith, strcmp-eq_zero s t)

pub strcmp_self : (s : Text) → strcmp s s ≡ pos 0
unfolding strcmp
strcmp_self [] = refl
strcmp_self (c ∷ s) = ground (arith, strcmp_self s)

-- One of two texts is not behind the other.
pub strcmp_total : (s t : Text) → is_nonneg (strcmp s t) ≡ false → is_nonneg (strcmp t s) ≡ true
unfolding strcmp
strcmp_total [] [] h = cc
strcmp_total [] (d ∷ t) h = refl
strcmp_total (c ∷ s) [] h = cc
strcmp_total (c ∷ s) (d ∷ t) h = ground (arith, strcmp_total s t)

-- The names of the boxes at these addresses are in ascending order.
abbrev pub IsSorted : Heap → List Ptr → Type 0
IsSorted h [] = Unit
IsSorted h (a ∷ []) = Unit
IsSorted h (a ∷ b ∷ ps) =
    (is_nonneg (strcmp (h b).box_name (h a).box_name) ≡ true) × IsSorted h (b ∷ ps)
