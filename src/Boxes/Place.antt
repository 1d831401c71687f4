-- ===== src/Boxes/Place.antt =====
-- The place of a new box in a list of utils/utility_funcs.c.
use mathlib.Core.List.{Perm}
use mathlib.Core.List.Perm
use ex.Common.{◌≡◌, inl, inr, ap, false, List, [], ◌∷◌, Bool-cases, if◌then◌else◌}
use ex.Common.Int.{is_nonneg}
use ex.Boxes.{Ptr, Box, Heap, strcmp}
use ex.Boxes.Chain.{payload, strcmp_total, IsSorted}

-- The addresses of a list with a new box in its place: before the first box whose name is not
-- before the new one's.
unfoldable pub place : Heap → Ptr → List Ptr → List Ptr
place h q [] = q ∷ []
place h q (a ∷ ps) =
    if is_nonneg (strcmp (h a).box_name (h q).box_name) then q ∷ a ∷ ps else a ∷ place h q ps

-- The boxes of `place` are the old ones and the new one.
pub place-perm : (h : Heap) (q : Ptr) (ps : List Ptr) → Perm (place h q ps) (q ∷ ps)
unfolding place
place-perm h q [] = Perm.refl (q ∷ [])
place-perm h q (a ∷ ps) = elim (Bool-cases (is_nonneg (strcmp (h a).box_name (h q).box_name))) [
  | inl stop ↦ rw stop (Perm.refl (q ∷ a ∷ ps))
  | inr go ↦ rw go (Perm.trans (Perm.cons a (place-perm h q ps)) (Perm.swap q a ps))
]

-- Behind a box that is before the new one, a sorted list stays sorted.
pub place-IsSorted_behind :
    (h : Heap) (q a : Ptr) (ps : List Ptr)
    → is_nonneg (strcmp (h a).box_name (h q).box_name) ≡ false
    → IsSorted h (a ∷ ps)
    → IsSorted h (a ∷ place h q ps)
unfolding place
place-IsSorted_behind h q a [] before s = (strcmp_total _ _ before, tt)
place-IsSorted_behind h q a (b ∷ ps) before s =
    elim (Bool-cases (is_nonneg (strcmp (h b).box_name (h q).box_name))) [
      | inl stop ↦ rw stop (strcmp_total _ _ before, (stop, s.1))
      | inr go ↦ rw go (s.0, place-IsSorted_behind h q b ps go s.1)
    ]

pub place-IsSorted :
    (h : Heap) (q : Ptr) (ps : List Ptr) → IsSorted h ps → IsSorted h (place h q ps)
unfolding place
place-IsSorted h q [] s = tt
place-IsSorted h q (a ∷ ps) s =
    elim (Bool-cases (is_nonneg (strcmp (h a).box_name (h q).box_name))) [
      | inl stop ↦ rw stop (stop, s)
      | inr go ↦ rw go (place-IsSorted_behind h q a ps go s)
    ]

-- The order of names is read from the payloads.
pub IsSorted-payload :
    (h g : Heap) (ps : List Ptr)
    → ((r : Ptr) → payload (g r) ≡ payload (h r))
    → IsSorted h ps
    → IsSorted g ps
IsSorted-payload h g [] e s = tt
IsSorted-payload h g (a ∷ []) e s = tt
IsSorted-payload h g (a ∷ b ∷ ps) e s =
    let na : (g a).box_name ≡ (h a).box_name = ap (λ (n : Box). n.box_name) (e a) in
    let nb : (g b).box_name ≡ (h b).box_name = ap (λ (n : Box). n.box_name) (e b) in
    (rw (na, nb) s.0, IsSorted-payload h g (b ∷ ps) e s.1)
