-- ===== src/Clients/Tests.antt =====
-- The theorems about the clients at an environment in which every call succeeds and SIGINT comes
-- behind the first read, and at a heap with three boxes.
use ex.Common.{false, ◌-◌, ◌≡◌, ◌≤◌, refl, arith, true, none, List, [], ◌∷◌, ltb}
use ex.Common.Int.{pos}
use ex.Fs.State.Memory.{Text}
use ex.Fs.Ops.Mutex.{working}
use ex.Boxes.{Heap}
use ex.Boxes.Chain.{IsChain}
use ex.Wire.{zero_request, r_c_box}
use ex.Process.{Env, Process, Call}
use ex.Clients.{Client}
use ex.Clients.Manager
use ex.Clients.Publisher
use ex.Clients.Subscriber
use ex.Clients.Calls.{Unheard, main-Unheard}
use ex.Process.Count.{reads}
use ex.Clients.Counting.{Reported, listen-Reported}
use ex.Clients.Answers.{Managed, manage-Managed}
use ex.Clients.Messages.{Mute, hold_session-Mute}
use ex.Clients.Listing.{listing, print_boxes_lem}

abbrev env : Env
env = record {
  result = λ cs. pos 3;
  errno = λ cs. 0;
  received = λ cs. record zero_request { code = r_c_box };
  pointer = λ cs. 1;
  interrupted = λ cs. ltb 0 (reads cs);
  uninitialised = λ cs. b'm' ∷ 0 ∷ [];
  scanned = λ cs. none;
  input_error = λ cs. false;
  input_end = λ cs. false;
  pthread = working;
  fuel = 3;
}

interrupts : (cs : List Call) → 1 ≤ reads cs → env.interrupted cs ≡ true
interrupts cs h = ground arith

-- Three boxes, each linked to the one at the address before it.
abbrev boxes : Heap
boxes a = record {
  box_name = b'b' ∷ [];
  last = 0;
  box_size = 0;
  n_publishers = 0;
  n_subscribers = 0;
  next = a - 1;
}

abbrev start : Process Client
start = record { variables = record { session_end = false; boxes = boxes }; calls = [] }

abbrev session : Text
session = b'p' ∷ []

abbrev arguments : List Text
arguments = (b'm' ∷ []) ∷ (b'r' ∷ []) ∷ session ∷ (b'b' ∷ []) ∷ []

main-Unheard_example :
    Unheard start (Manager.main env arguments start)
    × (Unheard start (Publisher.main env arguments start)
        × Unheard start (Subscriber.main env arguments start))
main-Unheard_example = main-Unheard env arguments start

listen-Reported_example :
    Reported (pos 3) (pos 4) session [] (Subscriber.listen env (pos 3) (pos 4) session start)
listen-Reported_example =
    listen-Reported env (pos 3) (pos 4) session 1 start interrupts (omega arith) (omega arith)
      (omega arith)

manage-Managed_example : Managed [] (Manager.manage env (pos 3) session none start)
manage-Managed_example = manage-Managed env (pos 3) session none start (omega arith)

hold_session-Mute_example : Mute 0 (pos 1) (Publisher.hold_session env (pos 3) session start)
hold_session-Mute_example = hold_session-Mute env (pos 3) session start (omega arith)

chain : IsChain boxes 3 (3 ∷ 2 ∷ 1 ∷ [])
chain = (refl, omega arith, (refl, omega arith, (refl, omega arith, refl)))

print_boxes_lem_example : Manager.print_boxes env 3 3 start ≡ listing (3 ∷ 2 ∷ 1 ∷ []) start
print_boxes_lem_example = print_boxes_lem env 3 3 (3 ∷ 2 ∷ 1 ∷ []) start (omega arith) chain
