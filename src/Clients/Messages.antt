-- ===== src/Clients/Messages.antt =====
-- The session of pub.c behind its request.
use ex.Common.{
  ℕ, zero, suc, ◌≡◌, ◌<◌, refl, sym, arith, ◌||◌, Bool-cases, inl, inr, List, ◌∷◌, ltb, ◌==◌,
  length,
}
use ex.Common.Int.{ℤ, pos, minus_one, ◌==ℤ◌}
use ex.Fs.State.Memory.{Text}
use ex.Wire.{new_request, c_string, max_message}
use ex.Process.{
  Env, Process, Call, Out, done, stop, Fault, null_access, overrun, exit_failure, read_line,
  open_pipe, write_only, and_then, strip_last, call_, close_pipe, unlink_pipe, pure, ◌>>◌,
}
use ex.Process.Silent.{sent}
use ex.Clients.{Client}
use ex.Clients.Publisher.{read_input, send_message, send_lines, hold_session}

-- Why the session stops: a message is built with NULL names, an empty message is cut, or the input
-- has an error.
pub data IsMishap : Fault → Type 0 where
  nameless : IsMishap null_access
  empty : IsMishap overrun
  bad_input : IsMishap exit_failure

-- A run that makes no request: it returns, or stops for one of these reasons.
pub data Mute {A : Type 0} (n : ℕ) (a : A) : Out Client A → Type 0 where
  returned : {q : Process Client} → sent q.calls ≡ n → Mute n a (done a q)
  stopped : {e : Fault} {q : Process Client} → IsMishap e → sent q.calls ≡ n → Mute n a (stop e q)

-- The same for a run that does not return.
data Lost {A : Type 0} (n : ℕ) : Out Client A → Type 0 where
  lost : {e : Fault} {q : Process Client} → IsMishap e → sent q.calls ≡ n → Lost n (stop e q)

read_input-Mute : (env : Env) (p : Process Client) → Mute (sent p.calls) tt (read_input env p)
unfolding read_input
read_input-Mute env p = elim (Bool-cases (env.result cs ==ℤ pos 0)) [
  | inl e ↦ rw e (elim (Bool-cases (env.input_error cs)) [
    | inl e ↦ rw e (stopped bad_input refl)
    | inr e ↦ rw e (elim (Bool-cases (env.input_end cs)) [
      | inl e ↦ rw e (returned refl)
      | inr e ↦ rw e (returned refl)
    ])
  ])
  | inr e ↦ rw e (returned refl)
]
  where
    cs : List Call
    cs = read_line ∷ p.calls

send_message-Lost :
    (env : Env) (session_fifo : ℤ) (message : List ℕ) (p : Process Client)
    → Lost (sent p.calls) (send_message env session_fifo message p)
unfolding send_message strip_last new_request
send_message-Lost env session_fifo message p = elim (Bool-cases (length (c_string message) == 0)) [
  | inl e ↦ rw e (lost empty refl)
  | inr e ↦ rw e (elim (Bool-cases (ltb (length (c_string message)) max_message)) [
    | inl e ↦ rw e (lost nameless refl)
    | inr e ↦ rw e (lost nameless refl)
  ])
]

send_lines-Mute :
    (env : Env) (fuel : ℕ) (session_fifo : ℤ) (message : List ℕ) (p : Process Client)
    → 0 < fuel
    → Mute (sent p.calls) tt (send_lines env fuel session_fifo message p)
unfolding send_lines
send_lines-Mute env zero session_fifo message p some_fuel = absurd (omega arith)
send_lines-Mute env (suc fuel) session_fifo message p some_fuel =
    elim (Bool-cases (p.variables.session_end || env.interrupted p.calls)) [
      | inl e ↦ rw e (returned refl)
      | inr e ↦ rw e (go _ (read_input-Mute env p))
    ]
  where
    end :
        {n : ℕ} {r : Out Client (List ℕ)} (k : List ℕ → Process Client → Out Client (Unit {0}))
        → Lost n r
        → Mute n tt (and_then r k)
    end k (lost f s) = stopped f s

    go :
        {r : Out Client (Unit {0})} (k : List ℕ → Process Client → Out Client (Unit {0}))
        → Mute (sent p.calls) tt r
        → Mute
            (sent p.calls)
            tt
            (and_then r (λ z q. and_then (send_message env session_fifo message q) k))
    go k (returned {q = q} s) = rw (sym s) (end k (send_message-Lost env session_fifo message q))
    go k (stopped f s) = stopped f s

-- With fuel for one round, whatever the input and the answers of the system are: the publisher's
-- session returns 1, or it stops because a message is built with NULL for the names of its request,
-- because it cuts the last character of an empty message, or because the input has an error. It has
-- not sent a message then.
pub hold_session-Mute :
    (env : Env) (server_fifo : ℤ) (session_pipe : Text) (p : Process Client)
    → 0 < env.fuel
    → Mute (sent p.calls) (pos 1) (hold_session env server_fifo session_pipe p)
unfolding hold_session
hold_session-Mute env server_fifo session_pipe p some_fuel =
    elim (Bool-cases (env.result cs ==ℤ minus_one)) [
      | inl e ↦ rw e (returned refl)
      | inr e ↦ rw e (
          go (env.result cs) (
            send_lines-Mute env env.fuel (env.result cs) (env.uninitialised cs)
              (record p { calls = cs }) some_fuel))
    ]
  where
    cs : List Call
    cs = open_pipe session_pipe write_only ∷ p.calls

    go :
        {n : ℕ} {r : Out Client (Unit {0})} (fd : ℤ)
        → Mute n tt r
        → Mute n (pos 1) (
            and_then r (λ z.
              call_ env (close_pipe fd) >> (call_ env (unlink_pipe session_pipe) >> pure (pos 1))))
    go fd (returned s) = returned s
    go fd (stopped f s) = stopped f s
