-- ===== src/Clients/Answers.antt =====
-- The session of manager.c behind its request.
use ex.Common.{
  ℕ, zero, suc, ◌≡◌, ◌≤◌, inl, inr, refl, arith, Bool, false, ◌||◌, Bool-cases, Option, none, List,
  ◌∷◌, ◌==◌,
}
use ex.Common.Int.{ℤ, pos, minus_one, ◌==ℤ◌}
use ex.Fs.State.Memory.{Text}
use ex.Boxes as List_of_boxes
use ex.Boxes.{Ptr, null}
use ex.Wire.{Request, r_c_box, r_r_box}
use ex.Process.{
  Env, Process, Call, Out, done, stop, null_access, read_request, allocate, and_then, filled,
  open_pipe, read_only,
}
use ex.Clients.{Client}
use ex.Clients.Manager.{Received, ended, returned, receive_box, receive, finish, manage, scanned_or}
use ex.Process.Count.{printed, listed}

-- A box that is received is read or inserted through NULL.
data Crashed {A : Type 0} (cs : List Call) : Out Client A → Type 0 where
  crashed :
      {q : Process Client}
      → printed q.calls ≡ printed cs
      → listed q.calls ≡ listed cs
      → Crashed cs (stop null_access q)

receive_box-Crashed :
    (env : Env) (request : Request) (last : ℕ) (p : Process Client)
    → Crashed p.calls (receive_box env request last p)
unfolding receive_box List_of_boxes.new_box_b List_of_boxes.insertion_sort
receive_box-Crashed env request last p = elim (Bool-cases (request.boxa == null)) [
  | inl e ↦ rw e (crashed refl refl)
  | inr e ↦ rw e (elim (Bool-cases (env.pointer (allocate ∷ p.calls) == null)) [
    | inl e ↦ rw e (crashed refl refl)
    | inr e ↦ rw e (crashed refl refl)
  ])
]

-- The loop of a manager that has made `cs` before ends without a box listed: after one response or
-- none, or it crashes.
data Answered (cs : List Call) : Out Client Received → Type 0 where
  over :
      {q : Process Client}
      → printed q.calls ≤ suc (printed cs)
      → listed q.calls ≡ listed cs
      → Answered cs (done (ended false) q)
  failed :
      {q : Process Client}
      → printed q.calls ≡ printed cs
      → listed q.calls ≡ listed cs
      → Answered cs (done (returned (pos 1)) q)
  no_box :
      {q : Process Client}
      → printed q.calls ≡ printed cs
      → listed q.calls ≡ listed cs
      → Answered cs (stop null_access q)

receive-Answered :
    (env : Env) (fuel : ℕ) (server_fifo session_fifo : ℤ) (session_pipe : Text)
    (box_name : Option Text) (old : Request) (p : Process Client)
    → 2 ≤ fuel
    → Answered p.calls (receive env fuel server_fifo session_fifo session_pipe box_name 0 old p)
unfolding receive
receive-Answered env zero server_fifo session_fifo session_pipe box_name old p two =
    absurd (omega arith)
receive-Answered env (suc zero) server_fifo session_fifo session_pipe box_name old p two =
    absurd (omega arith)
receive-Answered env (suc (suc fuel)) server_fifo session_fifo session_pipe box_name old p two =
    elim (Bool-cases (p.variables.session_end || env.interrupted p.calls)) [
      | inl e ↦ rw e (over (omega arith) refl)
      | inr e ↦ rw e (elim (Bool-cases (env.result cs ==ℤ minus_one)) [
        | inl e ↦ rw e (failed refl refl)
        | inr e ↦ rw e (elim (Bool-cases ((code == r_c_box) || (code == r_r_box))) [
          | inl e ↦ rw e (over (omega arith) refl)
          | inr e ↦
              rw e
                (crash _ (receive_box-Crashed env (filled env cs old) 0 (record p { calls = cs })))
        ])
      ])
    ]
  where
    cs : List Call
    cs = read_request session_fifo ∷ p.calls

    code : ℕ
    code = scanned_or (filled env cs old).code (env.scanned cs)

    crash :
        {r : Out Client Bool} (k : Bool → Process Client → Out Client Received)
        → Crashed cs r
        → Answered p.calls (and_then r k)
    crash k (crashed f g) = no_box f g

-- The session of a manager that has made `cs` before: it returns 1, or it crashes and has printed
-- nothing. In both cases it has listed no box.
pub data Managed (cs : List Call) : Out Client ℤ → Type 0 where
  returned_one :
      {q : Process Client}
      → printed q.calls ≤ suc (printed cs)
      → listed q.calls ≡ listed cs
      → Managed cs (done (pos 1) q)
  no_box :
      {q : Process Client}
      → printed q.calls ≡ printed cs
      → listed q.calls ≡ listed cs
      → Managed cs (stop null_access q)

-- With fuel for two rounds, whatever is read: the manager's session returns 1, the status of a
-- failure, after it has printed one response at most, or it reads or writes through NULL before it has
-- printed a response. In both cases it has listed no box.
pub manage-Managed :
    (env : Env) (server_fifo : ℤ) (session_pipe : Text) (box_name : Option Text)
    (p : Process Client)
    → 2 ≤ env.fuel
    → Managed p.calls (manage env server_fifo session_pipe box_name p)
unfolding manage finish
manage-Managed env server_fifo session_pipe box_name p two =
    elim (Bool-cases (env.result cs ==ℤ minus_one)) [
      | inl e ↦ rw e (returned_one (omega arith) refl)
      | inr e ↦ rw e (
          go (
            receive-Answered env env.fuel server_fifo (env.result cs) session_pipe box_name
              (env.received cs) (record p { calls = cs }) two))
    ]
  where
    cs : List Call
    cs = open_pipe session_pipe read_only ∷ p.calls

    go :
        {r : Out Client Received}
        → Answered cs r
        → Managed p.calls (and_then r (finish env server_fifo (env.result cs) session_pipe none))
    go (over f g) = returned_one f g
    go (failed f g) = returned_one (omega arith) g
    go (Answered.no_box f g) = no_box f g
