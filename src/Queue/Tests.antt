-- ===== src/Queue/Tests.antt =====
-- The theorems about the queue at a queue of capacity 16.
use ex.Common.{ℕ, ◌≡◌, ◌<◌, ◌+◌, refl, true, false, [], ◌∷◌, arith, get_or}
use ex.Common.Int.{pos}
use ex.Queue.{Queue, done, blocked, bad_access, pcq_create, pcq_enqueue, pcq_dequeue}
use ex.Queue.Fill.{enqueue_all, create-enqueue_all, create-pcq_enqueue-bad_access}
use ex.Queue.Block.{pcq_dequeue-blocks}

-- A queue of capacity 16 with two elements.
abbrev two : Queue
two = record {
  buffer_bytes = 16;
  pcq_buffer = λ i. i + 7;
  pcq_capacity = 16;
  current_size_lock = false;
  pcq_current_size = 2;
  head_lock = false;
  pcq_head = 0;
  tail_lock = false;
  pcq_tail = 1;
  pusher_condvar_lock = false;
  popper_condvar_lock = false;
}

create-enqueue_all_example :
    (q t : Queue) × (pcq_create true (λ i. 0) two 16 ≡ done (pos 0) q)
    × (enqueue_all (5 ∷ 6 ∷ []) q ≡ done 0 t)
    × (t.pcq_current_size ≡ 2)
    × ((i : ℕ) → i < 2 → t.pcq_buffer i ≡ get_or (5 ∷ 6 ∷ []) i 0)
    × (t.current_size_lock ≡ false)
    × (t.tail_lock ≡ false)
create-enqueue_all_example =
    create-enqueue_all 16 (λ i. 0) two (5 ∷ 6 ∷ []) (omega arith) (omega arith)

-- Two elements fit where there should be room for sixteen.
create-pcq_enqueue-bad_access_example :
    (q t : Queue) × (pcq_create true (λ i. 0) two 16 ≡ done (pos 0) q)
    × (enqueue_all (5 ∷ 6 ∷ []) q ≡ done 0 t)
    × (t.pcq_current_size < t.pcq_capacity)
    × (pcq_enqueue 9 t ≡ bad_access)
create-pcq_enqueue-bad_access_example =
    create-pcq_enqueue-bad_access 16 (λ i. 0) two (5 ∷ 6 ∷ []) 9 (omega arith) (omega arith) refl

-- The queue after the first dequeue.
abbrev dequeued : Queue
dequeued = record two { pcq_head = 2; pcq_current_size = 1; current_size_lock = true }

pcq_dequeue-blocks_example : (pcq_enqueue 9 dequeued ≡ blocked) × (pcq_dequeue dequeued ≡ blocked)
unfolding pcq_dequeue
pcq_dequeue-blocks_example = pcq_dequeue-blocks two dequeued 7 9 refl
