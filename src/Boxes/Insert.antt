-- ===== src/Boxes/Insert.antt =====
-- `insertion_sort` of utils/utility_funcs.c.
use mathlib.Core.List.{Perm}
use mathlib.Core.List.Perm
use ex.Common.{
  ℕ, zero, suc, ◌<◌, ◌≤◌, ◌≡◌, ◌≢◌, inl, inr, refl, sym, subst, ◌∙◌, ap, true, false, some, List,
  [], ◌∷◌, arith, length, Bool-cases, ◌==◌, update-ne, update_self,
}
use ex.Common.Int.{is_nonneg}
use ex.Boxes.{
  Ptr, null, Box, Heap, Out, done, and_then, pure, strcmp, with_next, insert_behind, insertion_sort,
}
use ex.Boxes.Chain.{
  IsChain, Avoids, IsChain-with_next, payload, payload-with_next, Distinct, IsSorted,
}
use ex.Boxes.Place.{place, place-perm, place-IsSorted_behind, place-IsSorted, IsSorted-payload}

pub data Returns {A : Type 0} (P : A → Heap → Type 0) : Out A → Type 0 where
  returns : {a : A} {h : Heap} → P a h → Returns P (done a h)

-- What the loop has done when it was started at box `a`, with `ps` behind it.
record Inserted (h : Heap) (q a : Ptr) (ps : List Ptr) (h' : Heap) : Type 0 where
  chain : IsChain h' (h' a).next (place h q ps)
  payloads : (r : Ptr) → payload (h' r) ≡ payload (h r)
  frame : (r : Ptr) → r ≢ q → Avoids r (a ∷ ps) → h' r ≡ h r

abbrev linked : Heap → Ptr → Ptr → Heap
linked h q a = with_next a q (with_next q (h a).next h)

not_null : (p : Ptr) → p ≢ null → (p == null) ≡ false
not_null p h = ground arith

module _ (h : Heap) (q a : Ptr) (ps : List Ptr) (nq : q ≢ null) (na : a ≢ null) (ne : a ≢ q)
    (new : Avoids q ps) (out : Avoids a ps) (c : IsChain h (h a).next ps) where
  abbrev h' : Heap
  h' = linked h q a

  at_a : (h' a).next ≡ q
  at_a = ap (λ (b : Box). b.next) (update_self (with_next q (h a).next h) a _)

  at_q : (h' q).next ≡ (h a).next
  at_q =
      ap (λ (b : Box). b.next)
        (update-ne (with_next q (h a).next h) a _ q (λ e. ne (sym e)) ∙ update_self h q _)

  -- The new box between `a` and the rest.
  linked-Inserted : place h q ps ≡ q ∷ ps → Inserted h q a ps h'
  linked-Inserted e = record {
    chain = rw e (
      at_a,
      nq,
      rw at_q (
          IsChain-with_next (with_next q (h a).next h) a q (h a).next ps out
            (IsChain-with_next h q (h a).next (h a).next ps new c)),
    );
    payloads = λ r.
        payload-with_next (with_next q (h a).next h) a q r ∙ payload-with_next h q (h a).next r;
    frame = λ r nr av.
        update-ne (with_next q (h a).next h) a _ r (λ z. av.0 (sym z)) ∙ update-ne h q _ r nr;
  }

avoids_sym : (a b : Ptr) → a ≢ b → b ≢ a
avoids_sym a b h e = h (sym e)

-- What the rest of the loop has done, seen from the box before.
extend :
    (h : Heap) (q a b : Ptr) (ps : List Ptr)
    → a ≢ q
    → IsChain h (h a).next (b ∷ ps)
    → Avoids a (b ∷ ps)
    → is_nonneg (strcmp (h b).box_name (h q).box_name) ≡ false
    → {r : Out (Unit {0})} → Returns (λ _ h'. Inserted h q b ps h') r
    → Returns (λ _ h'. Inserted h q a (b ∷ ps) h') r
unfolding place
extend h q a b ps ne c out go (returns {h = g} w) =
    let kept : (g a).next ≡ b = ap (λ (n : Box). n.next) (w.frame a ne out) ∙ c.0 in
    returns (record {
      chain = rw go (kept, c.1, w.chain);
      payloads = w.payloads;
      frame = λ r nr av. w.frame r nr av.1;
    })

insert_behind-Inserted :
    (fuel : ℕ) (h : Heap) (q a : Ptr) (ps : List Ptr)
    → q ≢ null
    → a ≢ null
    → a ≢ q
    → Avoids q ps
    → Distinct (a ∷ ps)
    → IsChain h (h a).next ps
    → length ps < fuel
    → Returns (λ _ h'. Inserted h q a ps h') (insert_behind fuel a q h)
unfolding insert_behind place
insert_behind-Inserted zero h q a ps nq na ne new d c fuel = absurd (omega arith)
insert_behind-Inserted (suc k) h q a [] nq na ne new d c fuel =
    let end : ((h a).next == null) ≡ true = ground arith in
    rw (end, not_null q nq, not_null a na)
      (returns (linked-Inserted h q a [] nq na ne new d.0 c refl))
insert_behind-Inserted (suc k) h q a (b ∷ ps) nq na ne new d c fuel =
    let more : ((h a).next == null) ≡ false = rw c.0 (not_null b c.1) in
    elim (Bool-cases (is_nonneg (strcmp (h b).box_name (h q).box_name))) [
      | inl stop ↦
          let stop' : is_nonneg (strcmp (h (h a).next).box_name (h q).box_name) ≡ true =
            rw c.0 stop in
          rw (more, stop', not_null q nq, not_null a na)
            (returns (linked-Inserted h q a (b ∷ ps) nq na ne new d.0 c (rw stop)))
      | inr go ↦
          let go' : is_nonneg (strcmp (h (h a).next).box_name (h q).box_name) ≡ false = rw c.0 go in
          rw (more, go')
            (rw c.0 (
              extend h q a b ps ne c d.0 go
                (insert_behind-Inserted k h q b ps nq c.1 new.0 new.1 d.1 c.2 (omega arith))))
    ]

-- The result of an insertion into the list at `ps`: a chain of the same boxes and the new one, in
-- order if they were in order before, and no box changed but for its link.
pub record IsInsertion (h : Heap) (q : Ptr) (ps : List Ptr) (p : Ptr) (h' : Heap) : Type 0 where
  pub boxes : List Ptr
  pub placed : boxes ≡ place h q ps
  pub chain : IsChain h' p boxes
  pub same_boxes : Perm boxes (q ∷ ps)
  pub sorted : IsSorted h ps → IsSorted h' boxes
  pub payloads : (r : Ptr) → payload (h' r) ≡ payload (h r)

front-IsInsertion :
    (h : Heap) (q p : Ptr) (ps : List Ptr)
    → q ≢ null
    → Avoids q ps
    → IsChain h p ps
    → place h q ps ≡ q ∷ ps
    → IsInsertion h q ps q (with_next q p h)
front-IsInsertion h q p ps nq new c e = record {
  boxes = q ∷ ps;
  placed = sym e;
  chain = (
    refl,
    nq,
    subst (λ r. IsChain (with_next q p h) r ps) (sym (ap (λ (b : Box). b.next) (update_self h q _)))
        (IsChain-with_next h q p p ps new c),
  );
  same_boxes = Perm.refl (q ∷ ps);
  sorted = λ s.
      IsSorted-payload h (with_next q p h) (q ∷ ps) (payload-with_next h q p)
        (subst (IsSorted h) e (place-IsSorted h q ps s));
  payloads = payload-with_next h q p;
}

-- With as much fuel as the list is long, `insertion_sort` of a new box into a chain of distinct
-- boxes returns: it never reads through NULL, the new list has the old boxes and the new one, it is
-- in the order of the names if the old one was, and no box changes but for its link.
pub insertion_sort-IsInsertion :
    (fuel : ℕ) (h : Heap) (q p : Ptr) (ps : List Ptr)
    → q ≢ null
    → Avoids q ps
    → Distinct ps
    → IsChain h p ps
    → length ps ≤ fuel
    → Returns (IsInsertion h q ps) (insertion_sort fuel (some p) q h)
unfolding insertion_sort place
insertion_sort-IsInsertion fuel h q p [] nq new d c enough =
    let empty : (p == null) ≡ true = ground arith in
    rw (empty, not_null q nq) (returns (front-IsInsertion h q p [] nq new c refl))
insertion_sort-IsInsertion fuel h q p (a ∷ ps) nq new d c enough =
    rw (c.0, not_null a c.1)
      (elim (Bool-cases (is_nonneg (strcmp (h a).box_name (h q).box_name))) [
        | inl stop ↦
            rw (stop, not_null q nq)
              (returns (front-IsInsertion h q a (a ∷ ps) nq new (refl, c.1, c.2) (rw stop)))
        | inr go ↦ rw go (
            finish (insert_behind-Inserted fuel h q a ps nq c.1 new.0 new.1 d c.2 (omega arith)) go)
      ])
  where
    finish :
        {r : Out (Unit {0})}
        → Returns (λ _ h'. Inserted h q a ps h') r
        → is_nonneg (strcmp (h a).box_name (h q).box_name) ≡ false
        → Returns (IsInsertion h q (a ∷ ps)) (and_then r (λ _. pure a))
    finish (returns {h = g} w) go = returns (record {
      boxes = a ∷ place h q ps;
      placed = rw go refl;
      chain = (refl, c.1, w.chain);
      same_boxes = Perm.trans (Perm.cons a (place-perm h q ps)) (Perm.swap q a ps);
      sorted = λ s.
          IsSorted-payload h g (a ∷ place h q ps) w.payloads (place-IsSorted_behind h q a ps go s);
      payloads = w.payloads;
    })
