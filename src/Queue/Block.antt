-- ===== src/Queue/Block.antt =====
-- The mutex that `pcq_dequeue` of producer-consumer.c keeps.
use ex.Common.{ℕ, ◌≡◌, arith}
use ex.Queue.{Queue, done, blocked, pcq_enqueue, pcq_dequeue}

-- A dequeue that returns keeps `pcq_current_size_lock`, so every later enqueue and every later
-- dequeue waits for ever.
pub pcq_dequeue-blocks :
    (q t : Queue) (elem x : ℕ)
    → pcq_dequeue q ≡ done elem t
    → (pcq_enqueue x t ≡ blocked) × (pcq_dequeue t ≡ blocked)
unfolding pcq_dequeue pcq_enqueue
pcq_dequeue-blocks q t elem x h = ground arith
