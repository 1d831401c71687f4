-- ===== src/Queue/Fill.antt =====
-- Filling the queue of producer-consumer.c.
use ex.Common.{
  ℕ, zero, suc, ◌+◌, ◌*◌, ◌/◌, ◌<◌, ◌≤◌, ◌≡◌, ◌≢◌, refl, subst, ◌∙◌, true, false, List, [], ◌∷◌,
  arith, length, get_or, ◌==◌, leb, update, update-ne, update_self,
}
use ex.Common.Int.{pos}
use ex.Queue.{
  Queue, Out, done, blocked, bad_access, size_max, next_size, sizeof_void, pcq_create, pcq_enqueue,
  next_tail,
}

-- Enqueues the elements of a list, one after the other.
unfoldable pub enqueue_all : List ℕ → Queue → Out ℕ
enqueue_all [] q = done 0 q
enqueue_all (x ∷ xs) q = elim (pcq_enqueue x q) [
  | done r t ↦ enqueue_all xs t
  | blocked ↦ blocked
  | bad_access ↦ bad_access
]

-- A queue with the buffer that `pcq_create` allocates, into which `n` elements were put after its
-- creation.
pub record IsFilled (capacity : ℕ) (q : Queue) (n : ℕ) : Type 0 where
  pub size : q.pcq_current_size ≡ n
  pub bytes : q.buffer_bytes ≡ capacity * sizeof_void
  pub cap : q.pcq_capacity ≡ capacity
  pub tail : next_size q.pcq_tail ≡ n
  pub tail_ne : q.pcq_tail ≢ capacity
  pub size_lock : q.current_size_lock ≡ false
  pub tail_lock : q.tail_lock ≡ false

next_size_small : (n : ℕ) → n < size_max → next_size n ≡ n + 1
unfolding next_size
next_size_small n h = omega arith

next_size_max : next_size size_max ≡ 0
unfolding next_size
next_size_max = omega arith

-- One more element goes into the next cell, and the others stay.
abbrev pub pushed : Queue → ℕ → ℕ → Queue
pushed q n x = record q {
  pcq_tail = n;
  pcq_buffer = update q.pcq_buffer n x;
  pcq_current_size = n + 1;
  current_size_lock = false;
  tail_lock = false;
}

module _ {capacity : ℕ} {q : Queue} {n : ℕ} (f : IsFilled capacity q n)
    (small : capacity < size_max) where
  at_tail : next_tail q ≡ n
  at_tail =
      let c = f.cap in
      let ne : (q.pcq_tail == q.pcq_capacity) ≡ false = rw c (let h = f.tail_ne in ground arith) in
      rw ne f.tail

  not_full : n < capacity → (q.pcq_current_size == q.pcq_capacity) ≡ false
  not_full h = let c = f.cap in let s = f.size in rw (c, s) (ground arith)

  -- While the next cell lies in the allocation, an enqueue returns.
  pub pcq_enqueue-pushed :
      (x : ℕ) → 8 * (n + 1) ≤ capacity → pcq_enqueue x q ≡ done (pos 0) (pushed q n x)
  unfolding pcq_enqueue
  pcq_enqueue-pushed x h =
      let room : leb (8 * n + 8) q.buffer_bytes ≡ true = rw (f.bytes) (ground arith) in
      rw (
        f.size_lock,
        not_full (omega arith),
        f.tail_lock,
        at_tail,
        room,
        f.size,
        next_size_small n (omega arith),
      )

  pub pushed-IsFilled : (x : ℕ) → 8 * (n + 1) ≤ capacity → IsFilled capacity (pushed q n x) (n + 1)
  pushed-IsFilled x h = record {
    size = refl;
    bytes = f.bytes;
    cap = f.cap;
    tail = next_size_small n (omega arith);
    tail_ne = omega arith;
    size_lock = refl;
    tail_lock = refl;
  }

  -- Where the next cell does not lie in the allocation, an enqueue writes outside the buffer.
  pcq_enqueue-overrun :
      (x : ℕ) → n < capacity → capacity < 8 * (n + 1) → pcq_enqueue x q ≡ bad_access
  unfolding pcq_enqueue
  pcq_enqueue-overrun x h over =
      let room : leb (8 * n + 8) q.buffer_bytes ≡ false = rw (f.bytes) (ground arith) in
      rw (f.size_lock, not_full h, f.tail_lock, at_tail, room)

-- `t` holds the elements `xs` in the cells from `n` on, and below `n` what `q` holds.
pub record Holds (capacity : ℕ) (q t : Queue) (n : ℕ) (xs : List ℕ) : Type 0 where
  pub filled : IsFilled capacity t (n + length xs)
  pub cells : (i : ℕ) → i < length xs → t.pcq_buffer (n + i) ≡ get_or xs i 0
  pub kept : (i : ℕ) → i < n → t.pcq_buffer i ≡ q.pcq_buffer i

Holds-cons :
    {capacity : ℕ} {q t : Queue} (n x : ℕ) (xs : List ℕ)
    → Holds capacity (pushed q n x) t (n + 1) xs
    → Holds capacity q t n (x ∷ xs)
Holds-cons {capacity} {q} {t} n x xs h = record {
  filled = subst (IsFilled capacity t) (omega arith) h.filled;
  cells = cell;
  kept = λ i lt. h.kept i (omega arith) ∙ update-ne q.pcq_buffer n x i (omega arith);
}
  where
    cell : (i : ℕ) → i < length (x ∷ xs) → t.pcq_buffer (n + i) ≡ get_or (x ∷ xs) i 0
    cell zero lt =
        subst (λ j. t.pcq_buffer j ≡ x) (omega arith)
          (h.kept n (omega arith) ∙ update_self q.pcq_buffer n x)
    cell (suc i) lt =
        subst (λ j. t.pcq_buffer j ≡ get_or xs i 0) (omega arith) (h.cells i (omega arith))

enqueue_all-Holds :
    {capacity : ℕ} (xs : List ℕ) {q : Queue} (n : ℕ)
    → IsFilled capacity q n
    → capacity < size_max
    → 8 * (n + length xs) ≤ capacity
    → (t : Queue) × (enqueue_all xs q ≡ done 0 t) × Holds capacity q t n xs
unfolding enqueue_all
enqueue_all-Holds {capacity} [] {q} n f small room = (
  q,
  refl,
  record {
    filled = subst (IsFilled capacity q) (omega arith) f;
    cells = λ i lt. absurd (omega arith);
    kept = λ i lt. refl;
  },
)
enqueue_all-Holds (x ∷ xs) {q} n f small room =
    let (t, run, h) =
      enqueue_all-Holds xs {q = pushed q n x} (n + 1) (pushed-IsFilled f small x (omega arith))
        small (omega arith) in
    (t, rw (pcq_enqueue-pushed f small x (omega arith), enqueue_all) run, Holds-cons n x xs h)

-- The queue that `pcq_create` makes.
abbrev created : ℕ → (ℕ → ℕ) → Queue
created capacity garbage = record {
  buffer_bytes = capacity * sizeof_void;
  pcq_buffer = garbage;
  pcq_capacity = capacity;
  current_size_lock = false;
  pcq_current_size = 0;
  head_lock = false;
  pcq_head = 0;
  tail_lock = false;
  pcq_tail = size_max;
  pusher_condvar_lock = false;
  popper_condvar_lock = false;
}

created-IsFilled :
    (capacity : ℕ) (garbage : ℕ → ℕ)
    → capacity < size_max
    → IsFilled capacity (created capacity garbage) 0
created-IsFilled capacity garbage small = record {
  size = refl;
  bytes = refl;
  cap = refl;
  tail = next_size_max;
  tail_ne = omega arith;
  size_lock = refl;
  tail_lock = refl;
}

-- With a successful malloc and a capacity below 2^64 - 1 that is at least eight times the number of
-- the elements, `pcq_create` succeeds and the enqueues of the elements all return; then the buffer
-- holds them in order, the size is their number, and the mutexes of the size and the tail are free.
pub create-enqueue_all :
    (capacity : ℕ) (garbage : ℕ → ℕ) (old : Queue) (xs : List ℕ)
    → capacity < size_max
    → 8 * length xs ≤ capacity
    → (q t : Queue) × (pcq_create true garbage old capacity ≡ done (pos 0) q)
      × (enqueue_all xs q ≡ done 0 t)
      × (t.pcq_current_size ≡ length xs)
      × ((i : ℕ) → i < length xs → t.pcq_buffer i ≡ get_or xs i 0)
      × (t.current_size_lock ≡ false)
      × (t.tail_lock ≡ false)
unfolding pcq_create
create-enqueue_all capacity garbage old xs small room =
    let q = created capacity garbage in
    let f = created-IsFilled capacity garbage small in
    let (t, run, h) = enqueue_all-Holds xs 0 f small (omega arith) in
    (
      q,
      t,
      refl,
      run,
      h.filled.size ∙ omega arith,
      λ i lt. subst (λ j. t.pcq_buffer j ≡ get_or xs i 0) (omega arith) (h.cells i lt),
      h.filled.size_lock,
      h.filled.tail_lock,
    )

-- The queue overruns its buffer long before it is full: with a successful malloc and a capacity below
-- 2^64 - 1 and not 0, `pcq_create` succeeds, the enqueues of as many elements as an eighth of the
-- capacity, rounded down, all return, though there is room for more; and the next `pcq_enqueue` writes
-- outside the buffer.
pub create-pcq_enqueue-bad_access :
    (capacity : ℕ) (garbage : ℕ → ℕ) (old : Queue) (xs : List ℕ) (x : ℕ)
    → capacity < size_max
    → 0 < capacity
    → length xs ≡ capacity / 8
    → (q t : Queue) × (pcq_create true garbage old capacity ≡ done (pos 0) q)
      × (enqueue_all xs q ≡ done 0 t)
      × (t.pcq_current_size < t.pcq_capacity)
      × (pcq_enqueue x t ≡ bad_access)
unfolding pcq_create
create-pcq_enqueue-bad_access capacity garbage old xs x small some_room eighth =
    let q = created capacity garbage in
    let f = created-IsFilled capacity garbage small in
    let (t, run, h) = enqueue_all-Holds xs 0 f small (omega (arith, eighth)) in
    (
      q,
      t,
      refl,
      run,
      omega (arith, h.filled.size, h.filled.cap, eighth),
      pcq_enqueue-overrun h.filled small x (omega (arith, eighth)) (omega (arith, eighth)),
    )
