-- ===== src/Clients/Calls.antt =====
-- No client gets as far as writing its request: `send_request` passes NULL for the message.
use ex.Common.{
  ℕ, ◌≡◌, ◌⊎◌, inl, inr, refl, Bool-cases, ◌&&◌, Option, none, some, List, [], ◌∷◌, ◌==◌, ltb,
  if◌then◌else◌, length, ◌+◌, get_or,
}
use ex.Common.Int.{ℤ, pos, minus_one, ◌==ℤ◌}
use ex.Fs.State.Memory.{Text}
use ex.Wire.{new_request, max_pipe_name, max_box_name, r_pub, r_sub}
use ex.Process.{
  Env, Process, Call, Out, done, stop, Fault, null_access, overrun, ◌>>=◌, ◌>>◌, and_then, call,
  ask, pure, eexist, make_fifo, open_pipe, set_signal, write_only, fail,
}
use ex.Process.Silent.{sent}
use ex.Clients.{Client, C, backfill, send_request}
use ex.Clients.Manager
use ex.Clients.Publisher
use ex.Clients.Subscriber

-- The faults of `send_request`.
pub data IsFault : Fault → Type 0 where
  through_null : IsFault null_access
  outside : IsFault overrun

-- A run from `p` that has written no request and has left the variables as they were: it has
-- returned 0 or 1, or it stops in `send_request`.
pub data Unheard (p : Process Client) : Out Client ℤ → Type 0 where
  returned :
      {r : ℤ} {q : Process Client}
      → (r ≡ pos 0) ⊎ (r ≡ pos 1)
      → q.variables ≡ p.variables
      → sent q.calls ≡ sent p.calls
      → Unheard p (done r q)
  stopped :
      {e : Fault} {q : Process Client}
      → IsFault e
      → q.variables ≡ p.variables
      → sent q.calls ≡ sent p.calls
      → Unheard p (stop e q)

-- `send_request` never returns, whatever its arguments are, and makes no call.
pub data Failed {A : Type 0} (p : Process Client) : Out Client A → Type 0 where
  failed : {e : Fault} → IsFault e → Failed p (stop e p)

send_request-Failed :
    (env : Env) (code : ℕ) (session_pipe box_name : Option Text) (rx : ℤ) (p : Process Client)
    → Failed p (send_request env code session_pipe box_name rx p)
unfolding send_request backfill new_request
send_request-Failed env code none box_name rx p = failed through_null
send_request-Failed env code (some s) none rx p =
    elim (Bool-cases (ltb (length s + 1) max_pipe_name)) [
      | inl e ↦ rw e (failed outside)
      | inr e ↦ rw e (failed through_null)
    ]
send_request-Failed env code (some s) (some b) rx p =
    elim (Bool-cases (ltb (length s + 1) max_pipe_name)) [
      | inl e ↦ rw e (failed outside)
      | inr e ↦ rw e (elim (Bool-cases (ltb (length b + 1) max_box_name)) [
        | inl f ↦ rw f (failed outside)
        | inr f ↦ rw f (failed through_null)
      ])
    ]

-- What follows `send_request` is not reached.
Failed-Unheard :
    {p q : Process Client} {A : Type 0} {r : Out Client A} (k : A → C ℤ)
    → q.variables ≡ p.variables
    → sent q.calls ≡ sent p.calls
    → Failed q r
    → Unheard p (and_then r k)
Failed-Unheard k v s (failed f) = stopped f v s

-- What each `main` does behind the check of its arguments, up to its request.
abbrev open_server : Env → Text → Text → C ℤ → (ℤ → C ℤ) → C ℤ
open_server env server_pipe session_pipe refused next = do
  set ← call env set_signal
  if set ==ℤ minus_one then pure (pos 0) else (do
    made ← call env (make_fifo session_pipe)
    e ← ask env.errno
    if (made ==ℤ minus_one) && (e == eexist) then pure (pos 1) else (do
      server_fifo ← call env (open_pipe server_pipe write_only)
      if server_fifo ==ℤ minus_one then refused else next server_fifo))

open_server-Unheard :
    (env : Env) (server_pipe session_pipe : Text) (refused : C ℤ) (next : ℤ → C ℤ)
    (p : Process Client)
    → ((q : Process Client)
        → q.variables ≡ p.variables
        → sent q.calls ≡ sent p.calls
        → Unheard p (refused q))
    → ((fd : ℤ) (q : Process Client)
        → q.variables ≡ p.variables
        → sent q.calls ≡ sent p.calls
        → Unheard p (next fd q))
    → Unheard p (open_server env server_pipe session_pipe refused next p)
open_server-Unheard env server_pipe session_pipe refused next p h k =
    elim (Bool-cases (env.result (set_signal ∷ p.calls) ==ℤ minus_one)) [
      | inl e ↦ rw e (returned (inl refl) refl refl)
      | inr e ↦
          rw e (elim (Bool-cases ((env.result made ==ℤ minus_one) && (env.errno made == eexist))) [
            | inl e ↦ rw e (returned (inr refl) refl refl)
            | inr e ↦ rw e (elim (Bool-cases (env.result opened ==ℤ minus_one)) [
              | inl e ↦ rw e (h _ refl refl)
              | inr e ↦ rw e (k _ _ refl refl)
            ])
          ])
    ]
  where
    made : List Call
    made = make_fifo session_pipe ∷ set_signal ∷ p.calls

    opened : List Call
    opened = open_pipe server_pipe write_only ∷ make_fifo session_pipe ∷ set_signal ∷ p.calls

Publisher_connect-Unheard :
    (env : Env) (server_pipe session_pipe box_name : Text) (p : Process Client)
    → Unheard p (Publisher.connect env server_pipe session_pipe box_name p)
unfolding Publisher.connect
Publisher_connect-Unheard env server_pipe session_pipe box_name p =
    open_server-Unheard env server_pipe session_pipe _
      (λ fd.
        send_request env r_pub (some session_pipe) (some box_name) fd
        >> Publisher.hold_session env fd session_pipe)
      p (λ q v s. returned (inr refl) v s)
      (λ fd q v s.
        Failed-Unheard (λ z. Publisher.hold_session env fd session_pipe) v s
          (send_request-Failed env r_pub (some session_pipe) (some box_name) fd q))

Subscriber_connect-Unheard :
    (env : Env) (server_pipe session_pipe : Text) (box_name : Option Text) (p : Process Client)
    → Unheard p (Subscriber.connect env server_pipe session_pipe box_name p)
unfolding Subscriber.connect
Subscriber_connect-Unheard env server_pipe session_pipe box_name p =
    open_server-Unheard env server_pipe session_pipe _
      (λ fd.
        send_request env r_sub (some session_pipe) box_name fd
        >> Subscriber.hold_session env fd session_pipe)
      p (λ q v s. returned (inr refl) v s)
      (λ fd q v s.
        Failed-Unheard (λ z. Subscriber.hold_session env fd session_pipe) v s
          (send_request-Failed env r_sub (some session_pipe) box_name fd q))

Manager_connect-Unheard :
    (env : Env) (server_pipe session_pipe : Text) (instruction box_name : Option Text)
    (p : Process Client)
    → Unheard p (Manager.connect env server_pipe session_pipe instruction box_name p)
unfolding Manager.connect
Manager_connect-Unheard env server_pipe session_pipe none box_name p =
    open_server-Unheard env server_pipe session_pipe _ (λ fd. fail null_access) p
      (λ q v s. returned (inr refl) v s) (λ fd q v s. stopped through_null v s)
Manager_connect-Unheard env server_pipe session_pipe (some text) box_name p =
    open_server-Unheard env server_pipe session_pipe _
      (λ fd. ask env.uninitialised >>= λ unset.
        send_request env (Manager.code_of (get_or unset 0 0) text) (some session_pipe) box_name fd
        >> Manager.manage env fd session_pipe box_name)
      p (λ q v s. returned (inr refl) v s)
      (λ fd q v s.
        Failed-Unheard (λ z. Manager.manage env fd session_pipe box_name) v s
          (send_request-Failed env _ (some session_pipe) box_name fd q))

-- Whatever its arguments and the answers of the system are, `main` of the publisher returns 0 or 1
-- or stops at an access through NULL or outside an array, with its variables as they were, and
-- without having written a request. No fuel is assumed.
pub Publisher_main-Unheard :
    (env : Env) (argv : List Text) (p : Process Client) → Unheard p (Publisher.main env argv p)
unfolding Publisher.main
Publisher_main-Unheard env [] p = returned (inr refl) refl refl
Publisher_main-Unheard env (a ∷ []) p = returned (inr refl) refl refl
Publisher_main-Unheard env (a ∷ b ∷ []) p = returned (inr refl) refl refl
Publisher_main-Unheard env (a ∷ b ∷ c ∷ []) p = returned (inr refl) refl refl
Publisher_main-Unheard env (a ∷ server_pipe ∷ session_pipe ∷ box_name ∷ []) p =
    Publisher_connect-Unheard env server_pipe session_pipe box_name p
Publisher_main-Unheard env (a ∷ b ∷ c ∷ d ∷ e ∷ argv) p = returned (inr refl) refl refl

Subscriber_main-Unheard :
    (env : Env) (argv : List Text) (p : Process Client) → Unheard p (Subscriber.main env argv p)
unfolding Subscriber.main
Subscriber_main-Unheard env [] p = returned (inr refl) refl refl
Subscriber_main-Unheard env (a ∷ []) p = returned (inr refl) refl refl
Subscriber_main-Unheard env (a ∷ b ∷ []) p = returned (inr refl) refl refl
Subscriber_main-Unheard env (a ∷ server_pipe ∷ session_pipe ∷ []) p =
    Subscriber_connect-Unheard env server_pipe session_pipe _ p
Subscriber_main-Unheard env (a ∷ b ∷ c ∷ d ∷ argv) p = returned (inr refl) refl refl

Manager_main-Unheard :
    (env : Env) (argv : List Text) (p : Process Client) → Unheard p (Manager.main env argv p)
unfolding Manager.main
Manager_main-Unheard env [] p = returned (inr refl) refl refl
Manager_main-Unheard env (a ∷ []) p = returned (inr refl) refl refl
Manager_main-Unheard env (a ∷ b ∷ []) p = returned (inr refl) refl refl
Manager_main-Unheard env (a ∷ server_pipe ∷ session_pipe ∷ rest) p =
    elim (Bool-cases (ltb 2 (length rest))) [
      | inl e ↦ rw e (returned (inr refl) refl refl)
      | inr e ↦ rw e (Manager_connect-Unheard env server_pipe session_pipe _ _ p)
    ]

-- The three programs: whatever the arguments and the answers of the system are, `main` of the
-- manager, of the publisher and of the subscriber each returns 0 or 1, or stops at an access through
-- NULL or outside an array, with its variables as they were and without having written a request.
-- No fuel is assumed.
pub main-Unheard :
    (env : Env) (argv : List Text) (p : Process Client)
    → Unheard p (Manager.main env argv p)
      × (Unheard p (Publisher.main env argv p) × Unheard p (Subscriber.main env argv p))
main-Unheard env argv p = (
  Manager_main-Unheard env argv p,
  (Publisher_main-Unheard env argv p, Subscriber_main-Unheard env argv p),
)
