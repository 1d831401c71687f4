-- ===== src/Clients/Subscriber.antt =====
-- projeto-so-2022-23/subscriber/sub.c. The flag that SIGINT sets is `session_running` there.
use ex.Common.{
  ℕ, zero, suc, ◌+◌, true, ◌&&◌, ◌||◌, Option, some, List, [], ◌∷◌, ◌==◌, ltb, ◌^◌, if◌then◌else◌,
}
use ex.Common.Int.{ℤ, pos, minus_one, ◌==ℤ◌}
use ex.Fs.State.Memory.{Text}
use ex.Wire.{Request, zero_request, c_string, r_sub}
use ex.Process.{
  Env, pure, fail, ◌>>=◌, ◌>>◌, get, modify, ask, call, call_, read_into, eintr, eagain, eexist,
  make_fifo, set_signal, open_pipe, set_nonblock, close_pipe, unlink_pipe, print, print_count,
  read_only, write_only, int_overflow, unfinished,
}
use ex.Clients.{C, argument, send_request, leave}

-- A request that has not been initialised; only its message is used.
abbrev pub fresh_request : List ℕ → Request
fresh_request message = record zero_request { error_message = message }

-- What follows the read of a round, by its value and `errno`.
unfoldable pub check_read : Env → ℤ → Text → ℤ → ℕ → C (Unit {0})
check_read env session_fifo session_pipe ret e =
    if ret ==ℤ pos 0
    then pure tt
    else if e == eagain
    then modify (λ v. record v { session_end = true })
    else if e == eintr
    then (do call_ env (close_pipe session_fifo); call_ env (unlink_pipe session_pipe))
    else pure tt

-- One round of the loop.
unfoldable pub receive_message : Env → ℤ → Text → C (Unit {0})
receive_message env session_fifo session_pipe = do
  bytes ← ask env.uninitialised
  (ret, r) ← read_into env session_fifo (fresh_request bytes)
  e ← ask env.errno
  check_read env session_fifo session_pipe ret e
  call_ env (print (c_string r.error_message))

-- `received_messages++` on an int.
unfoldable pub next_received : ℕ → C ℕ
next_received received =
    if ltb (received + 1) (2 ^ 31) then pure (received + 1) else fail int_overflow

-- The loop of `main`; the value is `received_messages` at its end.
unfoldable pub receive_messages : Env → ℕ → ℤ → Text → ℕ → C ℕ
receive_messages env zero session_fifo session_pipe received = fail unfinished
receive_messages env (suc fuel) session_fifo session_pipe received = do
  v ← get
  stopped ← ask env.interrupted
  if v.session_end || stopped then pure received else (do
    receive_message env session_fifo session_pipe
    next ← next_received received
    receive_messages env fuel session_fifo session_pipe next)

-- `main` behind the opening of the session pipe; a failure of the latter does not end it.
unfoldable pub listen : Env → ℤ → ℤ → Text → C ℤ
listen env server_fifo session_fifo session_pipe = do
  call_ env (set_nonblock session_fifo)
  received ← receive_messages env env.fuel session_fifo session_pipe 0
  call_ env (print_count received)
  leave env session_fifo server_fifo session_pipe (pos 1)

-- `main` behind the request.
unfoldable pub hold_session : Env → ℤ → Text → C ℤ
hold_session env server_fifo session_pipe = do
  session_fifo ← call env (open_pipe session_pipe read_only)
  if session_fifo ==ℤ minus_one
      then (do
        call_ env (close_pipe server_fifo)
        call_ env (unlink_pipe session_pipe)
        listen env server_fifo session_fifo session_pipe)
      else listen env server_fifo session_fifo session_pipe

-- `main` behind the check of the arguments; `exit(EXIT_SUCCESS)` where `signal` fails.
unfoldable pub connect : Env → Text → Text → Option Text → C ℤ
connect env server_pipe session_pipe box_name = do
  set ← call env set_signal
  if set ==ℤ minus_one then pure (pos 0) else (do
    made ← call env (make_fifo session_pipe)
    e ← ask env.errno
    if (made ==ℤ minus_one) && (e == eexist) then pure (pos 1) else (do
      server_fifo ← call env (open_pipe server_pipe write_only)
      if server_fifo ==ℤ minus_one
          then (do call_ env (unlink_pipe session_pipe); pure (pos 1))
          else (do
            send_request env r_sub (some session_pipe) box_name server_fifo
            hold_session env server_fifo session_pipe)))

-- `box_name` is `argv[3]` of three arguments.
unfoldable pub main : Env → List Text → C ℤ
main env (name ∷ server_pipe ∷ session_pipe ∷ []) =
    connect env server_pipe session_pipe (argument (name ∷ server_pipe ∷ session_pipe ∷ []) 3)
main env _ = pure (pos 1)
