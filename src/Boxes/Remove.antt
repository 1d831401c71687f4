-- ===== src/Boxes/Remove.antt =====
-- `remove_box` of utils/utility_funcs.c. Its loop looks at the second box of the list again and
-- again, since it never moves on.
use ex.Common.{
  ℕ, zero, suc, ◌≡◌, ◌≢◌, inl, inr, refl, Bool-cases, Bool, true, false, some, List, [], ◌∷◌, arith,
  ◌==◌,
}
use ex.Common.Int.{pos, ◌==ℤ◌}
use ex.Boxes.{
  Text, Ptr, null, Heap, Out, done, null_access, running, and_then, pure, strcmp, with_next,
  remove_loop, remove_box,
}
use ex.Boxes.Chain.{IsChain}

-- `strcmp(b->box_name, name) == 0`
abbrev pub has_name : Heap → Text → Ptr → Bool
has_name h name a = strcmp (h a).box_name name ==ℤ pos 0

remove_loop-running :
    (fuel : ℕ) (h : Heap) (a b : Ptr) (name : Text)
    → a ≢ null
    → (h a).next ≡ b
    → b ≢ null
    → has_name h name b ≡ false
    → remove_loop fuel a name h ≡ running
unfolding remove_loop
remove_loop-running zero h a b name na e nb other = refl
remove_loop-running (suc k) h a b name na e nb other =
    ground (arith, remove_loop-running k h a b name na e nb other)

-- What `remove_box` does to a list, by the place of the first box with the name: the first and the
-- second box are unlinked, and `true` is returned; in a list of one box with another name NULL is
-- read; in a longer list whose first two boxes have other names it never returns.
pub data Removal (h : Heap) (name : Text) : List Ptr → Out (Bool × Ptr) → Type 0 where
  of_none : Removal h name [] null_access
  of_first :
      {a : Ptr} {ps : List Ptr}
      → has_name h name a ≡ true
      → Removal h name (a ∷ ps) (done (true, (h a).next) h)
  of_single : {a : Ptr} → has_name h name a ≡ false → Removal h name (a ∷ []) null_access
  of_second :
      {a b : Ptr} {ps : List Ptr}
      → has_name h name a ≡ false
      → has_name h name b ≡ true
      → Removal h name (a ∷ b ∷ ps) (done (true, a) (with_next a (h b).next h))
  of_later :
      {a b : Ptr} {ps : List Ptr}
      → has_name h name a ≡ false
      → has_name h name b ≡ false
      → Removal h name (a ∷ b ∷ ps) running

behind-Removal :
    (fuel : ℕ) (h : Heap) (a : Ptr) (ps : List Ptr) (name : Text)
    → a ≢ null
    → IsChain h (h a).next ps
    → has_name h name a ≡ false
    → Removal h name
        (a ∷ ps)
        (and_then (remove_loop (suc fuel) a name h) (λ success. pure (success, a)))
unfolding remove_loop
behind-Removal fuel h a [] name na c other =
    let some_box : (a == null) ≡ false = ground arith in
    let end : ((h a).next == null) ≡ true = ground arith in rw (some_box, end) (of_single other)
behind-Removal fuel h a (b ∷ ps) name na c other =
    let some_box : (a == null) ≡ false = ground arith in
    let more : ((h a).next == null) ≡ false = ground arith in
    elim (Bool-cases (has_name h name b)) [
      | inl same ↦
          let same' : has_name h name (h a).next ≡ true = rw c.0 same in
          rw (some_box, more, same') (rw c.0 (of_second other same))
      | inr differs ↦
          let differs' : has_name h name (h a).next ≡ false = rw c.0 differs in
          rw (some_box, more, differs', remove_loop-running fuel h a b name na c.0 c.1 differs)
            (of_later other differs)
    ]

-- What `remove_box` does to any chain of boxes: with the name in the first or the second box it unlinks
-- that box and returns `true`; on an empty list, and on a single box with another name, it reads
-- through NULL; and where the first two boxes have other names it is still in its loop, whatever
-- the fuel.
pub remove_box-Removal :
    (fuel : ℕ) (h : Heap) (p : Ptr) (ps : List Ptr) (name : Text)
    → IsChain h p ps
    → Removal h name ps (remove_box (suc fuel) (some p) name h)
unfolding remove_box
remove_box-Removal fuel h p [] name c =
    let end : (p == null) ≡ true = ground arith in rw end of_none
remove_box-Removal fuel h p (a ∷ ps) name c =
    let more : (a == null) ≡ false = ground arith in
    rw (c.0, more)
      (elim (Bool-cases (has_name h name a)) [
        | inl same ↦ rw same (of_first same)
        | inr other ↦ rw other (behind-Removal fuel h a ps name c.1 c.2 other)
      ])
