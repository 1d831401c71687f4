-- ===== src/Clients/Counting.antt =====
-- The loop of sub.c: the number it reports, and that SIGINT ends it.
use ex.Common.{
  ℕ, zero, suc, ◌≡◌, ◌≤◌, ◌<◌, ltb, ◌+◌, ◌^◌, refl, arith, true, false, ◌||◌, Bool-cases, inl, inr,
  List, ◌∷◌, ◌==◌,
}
use ex.Common.Int.{ℤ, pos, ◌==ℤ◌}
use ex.Fs.State.Memory.{Text}
use ex.Process.{
  Env, Process, Call, Out, done, set_nonblock, read_request, close_pipe, unlink_pipe, print,
  print_count, eintr, eagain, and_then, call_, ◌>>◌, ◌>>=◌,
}
use ex.Process.Count.{reads, printed}
use ex.Clients.{Client, leave}
use ex.Clients.Subscriber.{check_read, receive_message, receive_messages, next_received, listen}

-- A run that returns after `n` reads and `m` lines.
data Tallied {A : Type 0} (n m : ℕ) : Out Client A → Type 0 where
  tallied :
      {a : A} {q : Process Client}
      → reads q.calls ≡ n
      → printed q.calls ≡ m
      → Tallied n m (done a q)

check_read-Tallied :
    (env : Env) (session_fifo : ℤ) (session_pipe : Text) (ret : ℤ) (e : ℕ) (p : Process Client)
    → Tallied (reads p.calls) (printed p.calls) (check_read env session_fifo session_pipe ret e p)
unfolding check_read
check_read-Tallied env session_fifo session_pipe ret e p = elim (Bool-cases (ret ==ℤ pos 0)) [
  | inl z ↦ rw z (tallied refl refl)
  | inr z ↦ rw z (elim (Bool-cases (e == eagain)) [
    | inl z ↦ rw z (tallied refl refl)
    | inr z ↦ rw z (elim (Bool-cases (e == eintr)) [
      | inl z ↦ rw z (tallied refl refl)
      | inr z ↦ rw z (tallied refl refl)
    ])
  ])
]

receive_message-Tallied :
    (env : Env) (session_fifo : ℤ) (session_pipe : Text) (p : Process Client)
    → Tallied
        (suc (reads p.calls))
        (suc (printed p.calls))
        (receive_message env session_fifo session_pipe p)
unfolding receive_message
receive_message-Tallied env session_fifo session_pipe p = go _ (
    check_read-Tallied env session_fifo session_pipe (env.result cs) (env.errno cs)
      (record p { calls = cs }))
  where
    cs : List Call
    cs = read_request session_fifo ∷ p.calls

    go :
        {n m : ℕ} {r : Out Client (Unit {0})} (t : Text)
        → Tallied n m r
        → Tallied n (suc m) (and_then r (λ z. call_ env (print t)))
    go t (tallied e f) = tallied e (rw f refl)

-- The loop has returned `n` for a client that has made `cs` and counted `received` before: the
-- further rounds are as many as the reads and as the lines printed.
pub data Counted (received : ℕ) (cs : List Call) : Out Client ℕ → Type 0 where
  counted :
      {n : ℕ} {q : Process Client}
      → n + reads cs ≡ received + reads q.calls
      → n + printed cs ≡ received + printed q.calls
      → Counted received cs (done n q)

-- Where SIGINT has come by the time that `k` requests have been read, the fuel is enough for one
-- round more than there are reads left, and the counter can count these, the loop returns,
-- whatever the reads give; and what it returns has grown by the number of reads that it has made,
-- and of lines that it has printed, a failed read included.
receive_messages-Counted :
    (env : Env) (session_fifo : ℤ) (session_pipe : Text) (k : ℕ)
    → ((cs : List Call) → k ≤ reads cs → env.interrupted cs ≡ true)
    → (fuel received : ℕ) (p : Process Client) → k < fuel + reads p.calls
    → 0 < fuel
    → received + k < reads p.calls + 2 ^ 31
    → Counted received p.calls (receive_messages env fuel session_fifo session_pipe received p)
unfolding receive_messages next_received
receive_messages-Counted env session_fifo session_pipe k ends zero received p enough some_fuel
      small =
    absurd (omega arith)
receive_messages-Counted env session_fifo session_pipe k ends (suc fuel) received p enough some_fuel
      small =
    elim (Bool-cases (p.variables.session_end || env.interrupted p.calls)) [
      | inl e ↦ rw e (counted refl refl)
      | inr e ↦ rw e (
          go
            (λ q enough' some' small'.
              receive_messages-Counted env session_fifo session_pipe k ends fuel (received + 1) q
                enough' some' small')
            (running e) (receive_message-Tallied env session_fifo session_pipe p))
    ]
  where
    -- SIGINT has not come yet, so there are reads left.
    running : (p.variables.session_end || env.interrupted p.calls) ≡ false → reads p.calls < k
    running e = elim (Bool-cases (ltb (reads p.calls) k)) [
      | inl l ↦ ground arith
      | inr l ↦ absurd (ground (arith, ends p.calls (ground arith)))
    ]

    more :
        {r : Out Client ℕ} (q : Process Client)
        → reads q.calls ≡ suc (reads p.calls)
        → printed q.calls ≡ suc (printed p.calls)
        → Counted (received + 1) q.calls r
        → Counted received p.calls r
    more q f g (counted a b) = counted (omega arith) (omega arith)

    go :
        ((q : Process Client)
          → k < fuel + reads q.calls
          → 0 < fuel
          → received + 1 + k < reads q.calls + 2 ^ 31
          → Counted
              (received + 1)
              q.calls
              (receive_messages env fuel session_fifo session_pipe (received + 1) q))
        → reads p.calls < k
        → {r : Out Client (Unit {0})} → Tallied (suc (reads p.calls)) (suc (printed p.calls)) r
        → Counted received p.calls (
            and_then r
              (λ z. next_received received >>= receive_messages env fuel session_fifo session_pipe))
    go next l (tallied {q = q} f g) =
        let fits : ltb (received + 1) (2 ^ 31) ≡ true = ground arith in
        rw fits (more q f g (next q (omega arith) (omega arith) (omega arith)))

-- A run of the session that ends by itself: the report of `n` messages is followed by the closing of
-- both pipes and the removal of the session pipe.
pub data Reported (server_fifo session_fifo : ℤ) (session_pipe : Text) (before : List Call)
    : Out Client ℤ → Type 0 where
  reported :
      {n : ℕ} {cs : List Call} {v : Client}
      → n + reads before ≡ reads cs
      → n + printed before ≡ printed cs
      → Reported server_fifo session_fifo session_pipe before (
          done (pos 1) (record {
            variables = v;
            calls =
                unlink_pipe session_pipe
                ∷ close_pipe server_fifo
                ∷ close_pipe session_fifo
                ∷ print_count n
                ∷ cs;
          }))

-- Where SIGINT has come by the time that `k` requests have been read, fewer than 2^31 of these are
-- left, and `env.fuel` is enough for one round more than there are reads left, the subscriber's
-- session returns 1, whatever the reads give and even if the session pipe could not be opened. It
-- reports as many messages as it has made reads, each of which has made it print a line, a failed
-- or empty read included; it then closes both pipes and removes its own.
pub listen-Reported :
    (env : Env) (server_fifo session_fifo : ℤ) (session_pipe : Text) (k : ℕ) (p : Process Client)
    → ((cs : List Call) → k ≤ reads cs → env.interrupted cs ≡ true)
    → k < env.fuel + reads p.calls
    → 0 < env.fuel
    → k < reads p.calls + 2 ^ 31
    → Reported server_fifo session_fifo session_pipe p.calls
        (listen env server_fifo session_fifo session_pipe p)
unfolding listen
listen-Reported env server_fifo session_fifo session_pipe k p ends enough some_fuel small = go (
    receive_messages-Counted env session_fifo session_pipe k ends env.fuel 0
      (record p { calls = set_nonblock session_fifo ∷ p.calls }) enough some_fuel (omega arith))
  where
    go :
        {cs : List Call} {r : Out Client ℕ}
        → Counted 0 (set_nonblock session_fifo ∷ cs) r
        → Reported server_fifo session_fifo session_pipe cs (
            and_then r (λ n.
              call_ env (print_count n) >> leave env session_fifo server_fifo session_pipe (pos 1)))
    go (counted e f) = reported (omega arith) (omega arith)
