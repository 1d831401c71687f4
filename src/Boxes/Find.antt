-- ===== src/Boxes/Find.antt =====
-- `find_box` of utils/utility_funcs.c. Its test is `if (strcmp(...))`, which is true of a box with
-- another name than the one that is looked for.
use ex.Common.{
  ℕ, zero, suc, ◌<◌, ◌≡◌, ◌≢◌, ◌⊎◌, inl, inr, refl, true, false, some, List, [], ◌∷◌, arith, length,
  Bool-cases, ◌==◌, All, ap, if◌then◌else◌,
}
use ex.Common.Int.{pos, ◌==ℤ◌}
use ex.Boxes.{Text, Ptr, null, Heap, done, strcmp, find_from, find_box}
use ex.Boxes.Chain.{IsChain, strcmp-eq_zero, strcmp_self}

-- The first of the boxes whose name differs from `name`, or NULL.
unfoldable pub first_other : Heap → Text → List Ptr → Ptr
first_other h name [] = null
first_other h name (a ∷ ps) =
    if strcmp (h a).box_name name ==ℤ pos 0 then first_other h name ps else a

find_from-first_other :
    (fuel : ℕ) (h : Heap) (p : Ptr) (ps : List Ptr) (name : Text)
    → IsChain h p ps
    → length ps < fuel
    → find_from fuel p name h ≡ done (first_other h name ps) h
unfolding find_from first_other
find_from-first_other zero h p ps name c enough = absurd (omega arith)
find_from-first_other (suc k) h p [] name c enough =
    let end : (p == null) ≡ true = ground arith in rw end
find_from-first_other (suc k) h p (a ∷ ps) name c enough =
    let more : (p == null) ≡ false = ground arith in
    elim (Bool-cases (strcmp (h a).box_name name ==ℤ pos 0)) [
      | inl same ↦
          rw (more)
            (rw (c.0, same) (find_from-first_other k h (h a).next ps name c.2 (omega arith)))
      | inr other ↦ rw (more) (rw (c.0, other))
    ]

other_or_All :
    (h : Heap) (name : Text) (ps : List Ptr)
    → All (λ a. a ≢ null) ps
    → ((first_other h name ps ≡ null) × All (λ a. (h a).box_name ≡ name) ps)
      ⊎ ((first_other h name ps ≢ null) × ((h (first_other h name ps)).box_name ≢ name))
unfolding first_other
other_or_All h name [] ne = inl (refl, tt)
other_or_All h name (a ∷ ps) ne = elim (Bool-cases (strcmp (h a).box_name name ==ℤ pos 0)) [
  | inl same ↦ rw same (elim (other_or_All h name ps ne.1) [
    | inl (z, all) ↦ inl (z, (strcmp-eq_zero _ _ same, all))
    | inr found ↦ inr found
  ])
  | inr other ↦
      rw other (inr (ne.0, λ e. absurd (cc (other, ap (λ z. z ==ℤ pos 0) (strcmp_self name)))))
]

chain_not_null : (h : Heap) (p : Ptr) (ps : List Ptr) → IsChain h p ps → All (λ a. a ≢ null) ps
chain_not_null h p [] c = tt
chain_not_null h p (a ∷ ps) c = (c.1, chain_not_null h (h a).next ps c.2)

-- On a chain of boxes, with fuel for its length and one more, `find_box` returns and changes nothing:
-- it returns NULL if every box has the name that is looked for, and otherwise a box whose name is
-- another one.
pub find_box-finds_other :
    (fuel : ℕ) (h : Heap) (p : Ptr) (ps : List Ptr) (name : Text)
    → IsChain h p ps
    → length ps < fuel
    → (r : Ptr) × (find_box fuel (some p) name h ≡ done r h)
      × (((r ≡ null) × All (λ a. (h a).box_name ≡ name) ps)
          ⊎ ((r ≢ null) × ((h r).box_name ≢ name)))
unfolding find_box
find_box-finds_other fuel h p ps name c enough = (
  first_other h name ps,
  find_from-first_other fuel h p ps name c enough,
  other_or_All h name ps (chain_not_null h p ps c),
)
