-- ===== src/Boxes/Bag.antt =====
-- The list that `insertion_sort` of utils/utility_funcs.c builds forgets the order of the insertions: it
-- is a function of the bag of the names.
use mathlib.Core.Logic.{∥∥₁_elim}
use mathlib.Core.List.{Perm, Permᴰ}
use mathlib.Core.Quot
use mathlib.Core.Quot.{Quot}
use ex.Common.{ℕ, ◌+◌, ◌≤◌, ◌≡◌, ◌≢◌, refl, ap, ◌∙◌, List, All, length}
use ex.Boxes.{Text, Ptr, null, Heap, Out}
use ex.Boxes.Chain.{IsChain, Avoids, Distinct}
use ex.Boxes.Insert.{Returns, returns}
use ex.Boxes.Sort.{insert_all, insert_name, insert_names, names, IsBuilt, insert_all-IsBuilt}
use ex.Boxes.Order.{insert_name_comm}

-- Names, as often as they are there, in no order.
abbrev pub Bag : Type 0
Bag = Quot (Perm {A = Text})

abbrev pub bag : List Text → Bag
bag xs = Quot.mk xs

insert_names_swap :
    {xs xs' : List Text}
    → Permᴰ xs xs'
    → (ys : List Text) → insert_names xs ys ≡ insert_names xs' ys
insert_names_swap Permᴰ.nil ys = refl
insert_names_swap (Permᴰ.cons {l₁ = xs} {l₂ = xs'} e d) ys =
    ap (λ x. insert_names xs (insert_name x ys)) e ∙ insert_names_swap d _
insert_names_swap (Permᴰ.swap {a = a} {b = b} {a' = a'} {l = l} e f) ys =
    ap (insert_names l) (insert_name_comm b a ys)
    ∙ ap (λ x. insert_names l (insert_name a (insert_name x ys))) f
    ∙ ap (λ x. insert_names l (insert_name x (insert_name a' ys))) e
insert_names_swap (Permᴰ.trans d e) ys = insert_names_swap d ys ∙ insert_names_swap e ys

names_set : IsSet (List Text)
names_set = hlevel

insert_names_perm : (ys xs xs' : List Text) → Perm xs xs' → insert_names xs ys ≡ insert_names xs' ys
insert_names_perm ys xs xs' p =
    ∥∥₁_elim p (names_set (insert_names xs ys) (insert_names xs' ys)) (λ d. insert_names_swap d ys)

-- The names of a bag inserted into a list.
pub insert_bag : Bag → List Text → List Text
insert_bag b ys = Quot.lift names_set (λ xs. insert_names xs ys) (insert_names_perm ys) b

-- The list in the end has the names that the bag of the new names gives with the old ones.
pub record IsOfBag (h : Heap) (b : Bag) (ps : List Ptr) (p : Ptr) (h' : Heap) : Type 0 where
  pub boxes : List Ptr
  pub chain : IsChain h' p boxes
  pub all_names : names h' boxes ≡ insert_bag b (names h ps)

IsBuilt-IsOfBag :
    {h h' : Heap} {qs ps : List Ptr} {p : Ptr}
    → IsBuilt h qs ps p h'
    → IsOfBag h (bag (names h qs)) ps p h'
unfolding insert_bag
IsBuilt-IsOfBag b = record { boxes = b.boxes; chain = b.chain; all_names = b.all_names }

-- The order in which boxes are inserted does not matter: with fuel for the length of the list in the
-- end, the insertions of new boxes, one after the other, into a chain of distinct boxes all return, and
-- leave a chain whose names are a function of the names of the old boxes and of the bag of the names of
-- the new ones, which says how often a name is there and forgets their order.
pub insert_all-IsOfBag :
    (fuel : ℕ) (qs : List Ptr) (h : Heap) (p : Ptr) (ps : List Ptr)
    → All (λ q. q ≢ null) qs
    → Distinct qs
    → All (λ q. Avoids q ps) qs
    → Distinct ps
    → IsChain h p ps
    → length qs + length ps ≤ fuel
    → Returns (IsOfBag h (bag (names h qs)) ps) (insert_all fuel qs p h)
insert_all-IsOfBag fuel qs h p ps some_boxes d apart dps c enough =
    weaken (insert_all-IsBuilt fuel qs h p ps some_boxes d apart dps c enough)
  where
    weaken :
        {r : Out Ptr} → Returns (IsBuilt h qs ps) r → Returns (IsOfBag h (bag (names h qs)) ps) r
    weaken (returns b) = returns (IsBuilt-IsOfBag b)
