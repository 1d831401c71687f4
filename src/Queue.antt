-- ===== src/Queue.antt =====
-- projeto-so-2022-23/producer-consumer/producer-consumer.c: the bounded queue. The elements are
-- pointers, here numbers. A call ends in a new queue, or is blocked (it waits for a mutex that is
-- held, or on a condition variable), or writes or reads outside the buffer.
pub mod Fill
pub mod Block
mod Tests
use ex.Common.{ℕ, ◌+◌, ◌-◌, ◌*◌, ◌%◌, ◌^◌, Bool, true, false, ltb, leb, ◌==◌, if◌then◌else◌, update}
use ex.Common.Int.{ℤ, pos, minus_one}

-- `pc_queue_t`: `buffer_bytes` is the size of the allocation, and each mutex is held or not. The
-- condition variables have no state: nothing in the program signals them.
pub record Queue : Type 0 where
  pub buffer_bytes : ℕ
  pub pcq_buffer : ℕ → ℕ
  pub pcq_capacity : ℕ
  pub current_size_lock : Bool
  pub pcq_current_size : ℕ
  pub head_lock : Bool
  pub pcq_head : ℕ
  pub tail_lock : Bool
  pub pcq_tail : ℕ
  pub pusher_condvar_lock : Bool
  pub popper_condvar_lock : Bool

pub data Out (A : Type 0) : Type 0 where
  done : A → Queue → Out A
  blocked : Out A
  bad_access : Out A

-- `sizeof(void)` in GNU C
abbrev pub sizeof_void : ℕ
sizeof_void = 1

-- `sizeof(void *)`
abbrev pub pointer_size : ℕ
pointer_size = 8

-- `(size_t)-1`
abbrev pub size_max : ℕ
size_max = 2 ^ 64 - 1

-- `n + 1` on a size_t
unfoldable pub next_size : ℕ → ℕ
next_size n = (n + 1) % 2 ^ 64

-- `allocated` says whether malloc succeeds, and `garbage` is what the new buffer holds.
unfoldable pub pcq_create : Bool → (ℕ → ℕ) → Queue → ℕ → Out ℤ
pcq_create allocated garbage queue capacity =
    if allocated
    then done (pos 0) (record {
      buffer_bytes = capacity * sizeof_void;
      pcq_buffer = garbage;
      pcq_capacity = capacity;
      current_size_lock = false;
      pcq_current_size = 0;
      head_lock = false;
      pcq_head = 0;
      tail_lock = false;
      pcq_tail = size_max;
      pusher_condvar_lock = false;
      popper_condvar_lock = false;
    })
    else done minus_one (record queue {
      buffer_bytes = 0;
      pcq_capacity = capacity;
      pcq_head = 0;
      pcq_tail = size_max;
      pcq_current_size = 0;
    })

-- The buffer is freed, so that no cell of it may be used any more.
unfoldable pub pcq_destroy : Queue → Out ℤ
pcq_destroy queue = done (pos 0) (record queue { buffer_bytes = 0 })

-- `pcq_buffer[i]` lies in the allocation.
abbrev pub in_buffer : Queue → ℕ → Bool
in_buffer q i = leb (pointer_size * i + pointer_size) q.buffer_bytes

-- The tail of the next element.
abbrev pub next_tail : Queue → ℕ
next_tail q = if q.pcq_tail == q.pcq_capacity then 0 else next_size q.pcq_tail

-- The call holds `pcq_current_size_lock` while it waits, so nobody can end the wait.
unfoldable pub pcq_enqueue : ℕ → Queue → Out ℤ
unfolding next_size
pcq_enqueue elem q =
    if q.current_size_lock
    then blocked
    else if q.pcq_current_size == q.pcq_capacity
    then blocked
    else if q.tail_lock
    then blocked
    else if in_buffer q (next_tail q)
    then done (pos 0) (record q {
      pcq_tail = next_tail q;
      pcq_buffer = update q.pcq_buffer (next_tail q) elem;
      pcq_current_size = next_size q.pcq_current_size;
      current_size_lock = false;
      tail_lock = false;
    })
    else bad_access

-- Of its two calls of `pthread_mutex_unlock` none is for `pcq_current_size_lock`.
unfoldable pub pcq_dequeue : Queue → Out ℕ
unfolding next_size
pcq_dequeue q =
    if q.current_size_lock
    then blocked
    else if q.pcq_current_size == 0
    then blocked
    else if q.head_lock
    then blocked
    else if in_buffer q q.pcq_head
    then done (q.pcq_buffer q.pcq_head) (record q {
      pcq_head =
          if q.pcq_tail == q.pcq_capacity
          then next_size q.pcq_head
          else next_size (next_size q.pcq_head);
      pcq_tail = if q.pcq_tail == q.pcq_capacity then 0 else q.pcq_tail;
      pcq_current_size = q.pcq_current_size - 1;
      current_size_lock = true;
      popper_condvar_lock = false;
      head_lock = false;
    })
    else bad_access
