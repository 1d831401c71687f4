-- ===== src/Boxes/Sort.antt =====
-- Lists of boxes built by `insertion_sort` of utils/utility_funcs.c, against a reference on lists of
-- names.
use ex.Common.{
  ℕ, ◌+◌, ◌≤◌, ◌≡◌, ◌≢◌, refl, sym, ap, ◌∙◌, inl, inr, arith, some, List, [], ◌∷◌, All, length,
  Bool-cases, if◌then◌else◌,
}
use ex.Common.Int.{is_nonneg}
use ex.Boxes.{Text, Ptr, null, Box, Heap, Out, M, and_then, pure, strcmp, insertion_sort, ◌>>=◌}
use ex.Boxes.Chain.{IsChain, Avoids, payload, Distinct}
use ex.Boxes.Place.{place}
use ex.Boxes.Insert.{Returns, returns, IsInsertion, insertion_sort-IsInsertion}

-- The boxes at the addresses are inserted one after the other; returns the last value of `*head`.
abbrev pub insert_all : ℕ → List Ptr → Ptr → M Ptr
insert_all fuel [] head = pure head
insert_all fuel (q ∷ qs) head = do p ← insertion_sort fuel (some head) q; insert_all fuel qs p

-- The reference: a name goes before the first one that is not before it.
abbrev pub insert_name : Text → List Text → List Text
insert_name x [] = x ∷ []
insert_name x (y ∷ ys) =
    let rest = insert_name x ys in if is_nonneg (strcmp y x) then x ∷ y ∷ ys else y ∷ rest

abbrev pub insert_names : List Text → List Text → List Text
insert_names [] ys = ys
insert_names (x ∷ xs) ys = insert_names xs (insert_name x ys)

abbrev pub names : Heap → List Ptr → List Text
names h [] = []
names h (a ∷ ps) = (h a).box_name ∷ names h ps

names-place :
    (h : Heap) (q : Ptr) (ps : List Ptr)
    → names h (place h q ps) ≡ insert_name (h q).box_name (names h ps)
unfolding place
names-place h q [] = refl
names-place h q (a ∷ ps) = elim (Bool-cases (is_nonneg (strcmp (h a).box_name (h q).box_name))) [
  | inl stop ↦ rw stop refl
  | inr go ↦ rw go (ap (λ r. (h a).box_name ∷ r) (names-place h q ps))
]

names-payload :
    (h g : Heap) (ps : List Ptr)
    → ((r : Ptr) → payload (g r) ≡ payload (h r))
    → names g ps ≡ names h ps
names-payload h g [] e = refl
names-payload h g (a ∷ ps) e = rw (ap (λ (b : Box). b.box_name) (e a), names-payload h g ps e) refl

Avoids-place :
    (r : Ptr) (h : Heap) (q : Ptr) (ps : List Ptr) → q ≢ r → Avoids r ps → Avoids r (place h q ps)
unfolding place
Avoids-place r h q [] ne out = (ne, tt)
Avoids-place r h q (a ∷ ps) ne out =
    elim (Bool-cases (is_nonneg (strcmp (h a).box_name (h q).box_name))) [
      | inl stop ↦ rw stop (ne, out)
      | inr go ↦ rw go (out.0, Avoids-place r h q ps ne out.1)
    ]

Distinct-place :
    (h : Heap) (q : Ptr) (ps : List Ptr) → Avoids q ps → Distinct ps → Distinct (place h q ps)
unfolding place
Distinct-place h q [] new d = (tt, tt)
Distinct-place h q (a ∷ ps) new d =
    elim (Bool-cases (is_nonneg (strcmp (h a).box_name (h q).box_name))) [
      | inl stop ↦ rw stop (new, d)
      | inr go ↦
          rw go (Avoids-place a h q ps (λ e. new.0 (sym e)) d.0, Distinct-place h q ps new.1 d.1)
    ]

length-place : (h : Heap) (q : Ptr) (ps : List Ptr) → length (place h q ps) ≡ length ps + 1
unfolding place
length-place h q [] = refl
length-place h q (a ∷ ps) = ground (arith, length-place h q ps)

-- The remaining new boxes are apart from the list after one of them was inserted.
apart_place :
    (h : Heap) (q : Ptr) (ps qs : List Ptr)
    → Avoids q qs
    → All (λ r. Avoids r ps) qs
    → All (λ r. Avoids r (place h q ps)) qs
apart_place h q ps [] out apart = tt
apart_place h q ps (r ∷ qs) out apart =
    (Avoids-place r h q ps (λ e. out.0 (sym e)) apart.0, apart_place h q ps qs out.1 apart.1)

-- The list that the insertions of `qs` have made out of the one at `ps`.
pub record IsBuilt (h : Heap) (qs ps : List Ptr) (p : Ptr) (h' : Heap) : Type 0 where
  pub boxes : List Ptr
  pub chain : IsChain h' p boxes
  pub all_names : names h' boxes ≡ insert_names (names h qs) (names h ps)

-- With fuel for the length of the list in the end, the insertions of new boxes, one after the other,
-- into a chain of distinct boxes all return, and leave a chain. Its names are those that the
-- reference insertion makes of the names of the new boxes and of the old ones, whether or not the
-- list was in order.
pub insert_all-IsBuilt :
    (fuel : ℕ) (qs : List Ptr) (h : Heap) (p : Ptr) (ps : List Ptr)
    → All (λ q. q ≢ null) qs
    → Distinct qs
    → All (λ q. Avoids q ps) qs
    → Distinct ps
    → IsChain h p ps
    → length qs + length ps ≤ fuel
    → Returns (IsBuilt h qs ps) (insert_all fuel qs p h)
insert_all-IsBuilt fuel [] h p ps some_boxes d apart dps c enough =
    returns (record { boxes = ps; chain = c; all_names = refl })
insert_all-IsBuilt fuel (q ∷ qs) h p ps some_boxes d apart dps c enough =
    go (insertion_sort-IsInsertion fuel h q p ps some_boxes.0 apart.0 dps c (omega arith))
      (λ p' g w.
        let e = w.placed in
        insert_all-IsBuilt fuel qs g p' w.boxes some_boxes.1 d.1
          (rw e (apart_place h q ps qs d.0 apart.1)) (rw e (Distinct-place h q ps apart.0 dps))
          w.chain (omega (arith, ap length e, length-place h q ps)))
  where
    finish :
        {p' : Ptr} {g : Heap} (a : Ptr) (g' : Heap)
        → (w : IsInsertion h q ps p' g) → IsBuilt g qs w.boxes a g'
        → IsBuilt h (q ∷ qs) ps a g'
    finish {g = g} a g' w b = record {
      boxes = b.boxes;
      chain = b.chain;
      all_names =
          b.all_names
          ∙ ap (λ xs. insert_names xs (names g w.boxes)) (names-payload h g qs w.payloads)
          ∙ ap (insert_names (names h qs))
              (names-payload h g w.boxes w.payloads ∙ ap (names h) w.placed ∙ names-place h q ps);
    }

    go :
        {r : Out Ptr}
        → Returns (IsInsertion h q ps) r
        → ((p' : Ptr) (g : Heap) (w : IsInsertion h q ps p' g)
            → Returns (IsBuilt g qs w.boxes) (insert_all fuel qs p' g))
        → Returns (IsBuilt h (q ∷ qs) ps) (and_then r (insert_all fuel qs))
    go (returns {a = p'} {h = g} w) next = up w (next p' g w)
      where
        up :
            (w : IsInsertion h q ps p' g) {r : Out Ptr}
            → Returns (IsBuilt g qs w.boxes) r
            → Returns (IsBuilt h (q ∷ qs) ps) r
        up w (returns b) = returns (finish _ _ w b)
