-- ===== src/Boxes/Tests.antt =====
-- The theorems about the list of boxes at three small lists.
use ex.Common.{◌≡◌, refl, ◌≢◌, ◌⊎◌, List, [], ◌∷◌, some, arith, All, ◌==◌, if◌then◌else◌}
use ex.Boxes.{Text, Ptr, null, Box, Heap, done, insertion_sort, find_box, remove_box}
use ex.Boxes.Chain.{IsChain}
use ex.Boxes.Insert.{Returns, IsInsertion, insertion_sort-IsInsertion}
use ex.Boxes.Sort.{IsBuilt, insert_all, insert_all-IsBuilt}
use ex.Boxes.Bag.{bag, IsOfBag, insert_all-IsOfBag}
use ex.Boxes.Find.{find_box-finds_other}
use ex.Boxes.Remove.{Removal, remove_box-Removal}

abbrev named : Text → Ptr → Box
named name next = record {
  box_name = name;
  last = 0;
  box_size = 1024;
  n_publishers = 0;
  n_subscribers = 0;
  next = next;
}

-- The boxes "a" at 1, "c" at 2 and "d" at 3 in a list, and "b" at 4 apart.
abbrev heap : Heap
heap p =
    if p == 1
    then named (b'a' ∷ []) 2
    else if p == 2
    then named (b'c' ∷ []) 3
    else if p == 3
    then named (b'd' ∷ []) 0
    else named (b'b' ∷ []) 0

abbrev boxes : List Ptr
boxes = 1 ∷ 2 ∷ 3 ∷ []

boxes-IsChain : IsChain heap 1 boxes
boxes-IsChain = omega arith

insertion_sort-IsInsertion_example :
    Returns (IsInsertion heap 4 boxes) (insertion_sort 3 (some 1) 4 heap)
insertion_sort-IsInsertion_example =
    insertion_sort-IsInsertion 3 heap 4 1 boxes (omega arith) (omega arith) (omega arith)
      boxes-IsChain (omega arith)

find_box-finds_other_example :
    (r : Ptr) × (find_box 4 (some 1) (b'a' ∷ []) heap ≡ done r heap)
    × (((r ≡ null) × All (λ a. (heap a).box_name ≡ b'a' ∷ []) boxes)
        ⊎ ((r ≢ null) × ((heap r).box_name ≢ b'a' ∷ [])))
find_box-finds_other_example =
    find_box-finds_other 4 heap 1 boxes (b'a' ∷ []) boxes-IsChain (omega arith)

remove_box-Removal_example : Removal heap (b'd' ∷ []) boxes (remove_box 8 (some 1) (b'd' ∷ []) heap)
remove_box-Removal_example = remove_box-Removal 7 heap 1 boxes (b'd' ∷ []) boxes-IsChain

insert_all-IsBuilt_example :
    Returns (IsBuilt heap (3 ∷ 1 ∷ 4 ∷ []) []) (insert_all 3 (3 ∷ 1 ∷ 4 ∷ []) null heap)
insert_all-IsBuilt_example =
    insert_all-IsBuilt 3 (3 ∷ 1 ∷ 4 ∷ []) heap null [] (omega arith) (omega arith) (omega arith)
      (omega arith) refl (omega arith)

-- The names are "d", "a" and "b", in the order of the insertions.
insert_all-IsOfBag_example :
    Returns
      (IsOfBag heap (bag ((b'd' ∷ []) ∷ (b'a' ∷ []) ∷ (b'b' ∷ []) ∷ [])) [])
      (insert_all 3 (3 ∷ 1 ∷ 4 ∷ []) null heap)
insert_all-IsOfBag_example =
    insert_all-IsOfBag 3 (3 ∷ 1 ∷ 4 ∷ []) heap null [] (omega arith) (omega arith) (omega arith)
      (omega arith) refl (omega arith)
