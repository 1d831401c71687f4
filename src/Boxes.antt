-- ===== src/Boxes.antt =====
-- projeto-so-2022-23/utils/utility_funcs.c: the linked list of boxes that the broker and the manager
-- keep. A pointer to a box is a number, 0 is NULL, and the heap maps the others to their nodes. The
-- argument `box *head` is `none` where it is NULL, and otherwise `some` of the pointer `*head`.
pub mod Chain
pub mod Place
pub mod Insert
pub mod Sort
pub mod Order
pub mod Bag
pub mod Find
pub mod Remove
mod Tests
use ex.Common.{
  ℕ, zero, suc, ◌<◌, ◌≡◌, Bool, true, false, not, ◌&&◌, Option, none, some, List, [], ◌∷◌, ltb,
  ◌==◌, if◌then◌else◌, update,
}
use ex.Common.Int.{ℤ, pos, negsuc, is_nonneg, ◌==ℤ◌}

abbrev pub Text : Type 0
Text = List ℕ

abbrev pub Ptr : Type 0
Ptr = ℕ

abbrev pub null : Ptr
null = 0

-- `BOX`
pub record Box : Type 0 where
  pub box_name : Text
  pub last : ℕ
  pub box_size : ℕ
  pub n_publishers : ℕ
  pub n_subscribers : ℕ
  pub next : Ptr

abbrev pub Heap : Type 0
Heap = ℕ → Box

-- The outcome of a call: it returned, it read or wrote through NULL, or it is still in its loop
-- when the fuel is used up.
pub data Out (A : Type 0) : Type 0 where
  done : A → Heap → Out A
  null_access : Out A
  running : Out A

abbrev pub M : Type 0 → Type 0
M A = Heap → Out A

abbrev pub pure : {A : Type 0} → A → M A
pure a h = done a h

abbrev pub and_then : {A B : Type 0} → Out A → (A → M B) → Out B
and_then (done a h) f = f a h
and_then null_access f = null_access
and_then running f = running

infixl 5 ◌>>=◌ ◌>>◌
abbrev pub ◌>>=◌ : {A B : Type 0} → M A → (A → M B) → M B
◌>>=◌ m f h = and_then (m h) f

abbrev pub ◌>>◌ : {A B : Type 0} → M A → M B → M B
m >> k = m >>= λ _. k

-- `*p`
abbrev pub load : Ptr → M Box
load p h = if p == null then null_access else done (h p) h

abbrev pub with_next : Ptr → Ptr → Heap → Heap
with_next p q h = update h p (record (h p) { next = q })

-- `p->next = q`
abbrev pub set_next : Ptr → Ptr → M (Unit {0})
set_next p q h = if p == null then null_access else done tt (with_next p q h)

-- `strcmp`: of the value only the sign is meant.
unfoldable pub strcmp : Text → Text → ℤ
strcmp [] [] = pos 0
strcmp [] (d ∷ t) = negsuc 0
strcmp (c ∷ s) [] = pos 1
strcmp (c ∷ s) (d ∷ t) =
    let rest = strcmp s t in if ltb c d then negsuc 0 else if ltb d c then pos 1 else rest

-- `newBox_b`: `fresh` is what malloc returns.
unfoldable pub new_box_b : Ptr → Text → ℕ → ℕ → ℕ → ℕ → M Ptr
new_box_b fresh name last box_size n_publishers n_subscribers h =
    if fresh == null
    then null_access
    else done fresh (
        update h fresh (record {
          box_name = name;
          last = last;
          box_size = box_size;
          n_publishers = n_publishers;
          n_subscribers = n_subscribers;
          next = null;
        }))

-- The loop of `insertion_sort`, and the insertion behind `current`.
unfoldable pub insert_behind : ℕ → Ptr → Ptr → M (Unit {0})
insert_behind zero current new_box h = running
insert_behind (suc fuel) current new_box h =
    let further = insert_behind fuel (h current).next new_box h in
    let here = (set_next new_box (h current).next >> set_next current new_box) h in
    if (h current).next == null
    then here
    else if is_nonneg (strcmp (h (h current).next).box_name (h new_box).box_name)
    then here
    else further

-- Returns the new value of `*head`.
unfoldable pub insertion_sort : ℕ → Option Ptr → Ptr → M Ptr
insertion_sort fuel none new_box h = null_access
insertion_sort fuel (some head) new_box h =
    if head == null
    then (set_next new_box head >> pure new_box) h
    else if is_nonneg (strcmp (h head).box_name (h new_box).box_name)
    then (set_next new_box head >> pure new_box) h
    else (insert_behind fuel head new_box >> pure head) h

-- The loop of `find_box`.
unfoldable pub find_from : ℕ → Ptr → Text → M Ptr
find_from zero aux box_name h = running
find_from (suc fuel) aux box_name h =
    let rest = find_from fuel (h aux).next box_name h in
    if aux == null
    then done null h
    else if not (strcmp (h aux).box_name box_name ==ℤ pos 0)
    then done aux h
    else rest

unfoldable pub find_box : ℕ → Option Ptr → Text → M Ptr
find_box fuel none box_name = pure null
find_box fuel (some head) box_name = find_from fuel head box_name

-- The loop of `remove_box`, in which `aux` never changes.
unfoldable pub remove_loop : ℕ → Ptr → Text → M Bool
remove_loop zero aux box_name h = running
remove_loop (suc fuel) aux box_name h =
    let again = remove_loop fuel aux box_name h in
    if aux == null
    then done false h
    else if (h aux).next == null
    then null_access
    else if strcmp (h (h aux).next).box_name box_name ==ℤ pos 0
    then done true (with_next aux (h (h aux).next).next h)
    else again

-- Returns what `remove_box` returns, and the new value of `*head`.
unfoldable pub remove_box : ℕ → Option Ptr → Text → M (Bool × Ptr)
remove_box fuel none box_name h = null_access
remove_box fuel (some head) box_name h =
    if head == null
    then null_access
    else if strcmp (h head).box_name box_name ==ℤ pos 0
    then done (true, (h head).next) h
    else (remove_loop fuel head box_name >>= λ success. pure (success, head)) h
