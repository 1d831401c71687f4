-- ===== src/Clients/Manager.antt =====
-- projeto-so-2022-23/manager/manager.c.
use ex.Common.{
  ℕ, zero, suc, Bool, true, false, not, ◌&&◌, ◌||◌, Option, none, some, List, [], ◌∷◌, ltb, ◌==◌,
  if◌then◌else◌, length, get_or,
}
use ex.Common.Int.{ℤ, pos, minus_one, ◌==ℤ◌}
use ex.Fs.State.Memory.{Text}
use ex.Boxes as List_of_boxes
use ex.Boxes.{Ptr, null, strcmp}
use ex.Wire.{Request, c_string, c_box, r_box, l_box, r_c_box, r_r_box}
use ex.Process.{
  Env, pure, fail, ◌>>=◌, ◌>>◌, get, modify, ask, call, call_, malloc_box, read_into, string,
  eexist, make_fifo, set_signal, open_pipe, close_pipe, unlink_pipe, release, print, print_box,
  read_only, write_only, unfinished,
}
use ex.Clients.{C, with_boxes, argument, send_request, leave}

-- "create", "remove", "list" and "OK"
abbrev create_text : Text
create_text = b'c' ∷ b'r' ∷ b'e' ∷ b'a' ∷ b't' ∷ b'e' ∷ []

abbrev remove_text : Text
remove_text = b'r' ∷ b'e' ∷ b'm' ∷ b'o' ∷ b'v' ∷ b'e' ∷ []

abbrev list_text : Text
list_text = b'l' ∷ b'i' ∷ b's' ∷ b't' ∷ []

abbrev ok_text : Text
ok_text = b'O' ∷ b'K' ∷ []

-- The code for an instruction; for any other one `code` stays uninitialised, here `unset`.
unfoldable pub code_of : ℕ → Text → ℕ
code_of unset instruction =
    if strcmp instruction create_text ==ℤ pos 0
    then c_box
    else if strcmp instruction remove_text ==ℤ pos 0
    then r_box
    else if strcmp instruction list_text ==ℤ pos 0
    then l_box
    else unset

-- The loop has ended, with `print` or without, or `main` has returned.
pub data Received : Type 0 where
  ended : Bool → Received
  returned : ℤ → Received

abbrev pub scanned_or : ℕ → Option ℕ → ℕ
scanned_or code none = code
scanned_or code (some c) = c

-- A box that was received, and the end of the listing, for which `last` would have to be 1. The box
-- goes into the list at `head`, which is NULL. The value says whether the listing is at its end.
unfoldable pub receive_box : Env → Request → ℕ → C Bool
receive_box env request last = do
  b ← with_boxes (List_of_boxes.load request.boxa)
  fresh ← malloc_box env
  aux ←
      with_boxes
        (List_of_boxes.new_box_b fresh b.box_name b.last b.box_size b.n_publishers b.n_subscribers)
  first ← with_boxes (List_of_boxes.insertion_sort env.fuel none aux)
  pure (last == 1)

-- What is printed for an answer to a creation or a removal.
abbrev pub response : ℤ → List ℕ → List ℕ
response error_code message = if error_code ==ℤ minus_one then c_string message else ok_text

-- The loop of `main`. `last` is never assigned.
unfoldable pub receive : Env → ℕ → ℤ → ℤ → Text → Option Text → ℕ → Request → C Received
receive env zero server_fifo session_fifo session_pipe box_name last old = fail unfinished
receive env (suc fuel) server_fifo session_fifo session_pipe box_name last old = do
  v ← get
  stopped ← ask env.interrupted
  if v.session_end || stopped then pure (ended false) else (do
    (ret, request) ← read_into env session_fifo old
    scan ← ask env.scanned
    let code = scanned_or request.code scan
    let again = receive env fuel server_fifo session_fifo session_pipe box_name last request
    if ret ==ℤ minus_one
        then (do r ← leave env server_fifo session_fifo session_pipe (pos 1); pure (returned r))
        else if (code == r_c_box) || (code == r_r_box)
        then (do
          call_ env (print (response request.return_code request.error_message))
          modify (λ w. record w { session_end = true })
          again)
        else (do
          over ← receive_box env request last
          if not over then again else (do
            name ← string box_name
            if length name == 0
                then (do
                  r ← leave env session_fifo server_fifo session_pipe (pos 1)
                  pure (returned r))
                else (do modify (λ w. record w { session_end = true }); pure (ended true)))))

-- The loop that prints and frees the boxes.
unfoldable pub print_boxes : Env → ℕ → Ptr → C (Unit {0})
print_boxes env zero aux = fail unfinished
print_boxes env (suc fuel) aux = do
  b ← with_boxes (List_of_boxes.load aux)
  call_ env (print_box b.box_name b.box_size b.n_publishers b.n_subscribers)
  call_ env (release aux)
  n ← with_boxes (List_of_boxes.load b.next)
  let again = print_boxes env fuel b.next
  if n.next == null then again else pure tt

-- The end of `main`. `head` is NULL or holds the pointer to the first box.
unfoldable pub finish : Env → ℤ → ℤ → Text → Option Ptr → Received → C ℤ
finish env server_fifo session_fifo session_pipe head (returned r) = pure r
finish env server_fifo session_fifo session_pipe none (ended printing) =
    leave env server_fifo session_fifo session_pipe (pos 1)
finish env server_fifo session_fifo session_pipe (some first) (ended printing) =
    if printing
    then (do
      print_boxes env env.fuel first
      leave env session_fifo server_fifo session_pipe (pos 0))
    else leave env server_fifo session_fifo session_pipe (pos 1)

-- `main` behind the request.
unfoldable pub manage : Env → ℤ → Text → Option Text → C ℤ
manage env server_fifo session_pipe box_name = do
  session_fifo ← call env (open_pipe session_pipe read_only)
  if session_fifo ==ℤ minus_one
      then (do
        call_ env (close_pipe server_fifo)
        call_ env (unlink_pipe session_pipe)
        pure (pos 1))
      else (do
        request ← ask env.received
        r ← receive env env.fuel server_fifo session_fifo session_pipe box_name 0 request
        finish env server_fifo session_fifo session_pipe none r)

-- `main` behind the check of the arguments; `exit(EXIT_SUCCESS)` where `signal` fails.
unfoldable pub connect : Env → Text → Text → Option Text → Option Text → C ℤ
connect env server_pipe session_pipe instruction box_name = do
  set ← call env set_signal
  if set ==ℤ minus_one then pure (pos 0) else (do
    made ← call env (make_fifo session_pipe)
    e ← ask env.errno
    if (made ==ℤ minus_one) && (e == eexist) then pure (pos 1) else (do
      server_fifo ← call env (open_pipe server_pipe write_only)
      if server_fifo ==ℤ minus_one
          then (do call_ env (unlink_pipe session_pipe); pure (pos 1))
          else (do
            text ← string instruction
            unset ← ask env.uninitialised
            send_request env (code_of (get_or unset 0 0) text) (some session_pipe) box_name
                server_fifo
            manage env server_fifo session_pipe box_name)))

unfoldable pub main : Env → List Text → C ℤ
main env (name ∷ server_pipe ∷ session_pipe ∷ rest) =
    if ltb 2 (length rest)
    then pure (pos 1)
    else connect env server_pipe session_pipe (argument rest 0) (argument rest 1)
main env _ = pure (pos 1)
