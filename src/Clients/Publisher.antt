-- ===== src/Clients/Publisher.antt =====
-- projeto-so-2022-23/publisher/pub.c. The line that is read is not used behind the read, and its
-- content is left out.
use ex.Common.{
  ℕ, zero, suc, true, ◌&&◌, ◌||◌, none, some, List, [], ◌∷◌, ◌==◌, if◌then◌else◌, length,
}
use ex.Common.Int.{ℤ, pos, minus_one, ◌==ℤ◌, is_nonneg}
use ex.Fs.State.Memory.{Text}
use ex.Wire.{c_string, r_pub, m_pub}
use ex.Process.{
  Env, pure, fail, ◌>>=◌, ◌>>◌, get, modify, ask, call, call_, make_request, strip_last, eexist,
  make_fifo, set_signal, open_pipe, close_pipe, unlink_pipe, write_request, read_line, write_only,
  exit_failure, unfinished,
}
use ex.Clients.{C, send_request}

-- `fgets` and what follows where it returns NULL.
unfoldable pub read_input : Env → C (Unit {0})
read_input env = do
  line ← call env read_line
  failed ← ask env.input_error
  over ← ask env.input_end
  if line ==ℤ pos 0
      then if failed
        then fail exit_failure
        else if over
        then modify (λ v. record v { session_end = true })
        else pure tt
      else pure tt

-- The message that is sent in one round, and what `message` holds behind it.
unfoldable pub send_message : Env → ℤ → List ℕ → C (List ℕ)
send_message env session_fifo message = do
  let len = length (c_string message)
  stripped ← strip_last message
  r ← make_request m_pub none none (pos 0) (some stripped)
  ret ← call env (write_request session_fifo r len)
  if is_nonneg ret then pure stripped else fail exit_failure

-- The loop of `main`.
unfoldable pub send_lines : Env → ℕ → ℤ → List ℕ → C (Unit {0})
send_lines env zero session_fifo message = fail unfinished
send_lines env (suc fuel) session_fifo message = do
  v ← get
  stopped ← ask env.interrupted
  if v.session_end || stopped then pure tt else (do
    read_input env
    next ← send_message env session_fifo message
    send_lines env fuel session_fifo next)

-- `main` behind the request.
unfoldable pub hold_session : Env → ℤ → Text → C ℤ
hold_session env server_fifo session_pipe = do
  session_fifo ← call env (open_pipe session_pipe write_only)
  if session_fifo ==ℤ minus_one
      then (do
        call_ env (close_pipe server_fifo)
        call_ env (unlink_pipe session_pipe)
        pure (pos 1))
      else (do
        message ← ask env.uninitialised
        send_lines env env.fuel session_fifo message
        call_ env (close_pipe session_fifo)
        call_ env (unlink_pipe session_pipe)
        pure (pos 1))

-- `main` behind the check of the arguments; `exit(EXIT_SUCCESS)` where `signal` fails.
unfoldable pub connect : Env → Text → Text → Text → C ℤ
connect env server_pipe session_pipe box_name = do
  set ← call env set_signal
  if set ==ℤ minus_one then pure (pos 0) else (do
    made ← call env (make_fifo session_pipe)
    e ← ask env.errno
    if (made ==ℤ minus_one) && (e == eexist) then pure (pos 1) else (do
      server_fifo ← call env (open_pipe server_pipe write_only)
      if server_fifo ==ℤ minus_one then pure (pos 1) else (do
        send_request env r_pub (some session_pipe) (some box_name) server_fifo
        hold_session env server_fifo session_pipe)))

unfoldable pub main : Env → List Text → C ℤ
main env (name ∷ server_pipe ∷ session_pipe ∷ box_name ∷ []) =
    connect env server_pipe session_pipe box_name
main env _ = pure (pos 1)
