-- ===== src/Broker/Serve.antt =====
-- `selector` and `main` of mbroker.c. The queue of requests is created and never used, so its
-- content is left out; `heap` is what the mallocs of `tfs_init` return.
use ex.Common.{ℕ, zero, suc, true, not, ◌&&◌, none, List, [], ◌∷◌, ◌==◌, if◌then◌else◌}
use ex.Common.Int.{ℤ, pos, minus_one, ◌==ℤ◌}
use ex.Fs.State.Memory.{Text}
use ex.Fs.State.Setup.{Malloc}
use ex.Fs.Ops.Init.{tfs_init}
use ex.Fs.Ops.Open.{tfs_close}
use ex.Boxes.{Ptr, null}
use ex.Wire.{Request, zero_request, c_string, r_pub, r_sub, c_box, r_box, l_box}
use ex.Process.{
  Env, pure, fail, ◌>>=◌, ◌>>◌, get, modify, ask, call, call_, malloc_box, read_into, eintr, eexist,
  set_signal, make_fifo, open_pipe, set_nonblock, close_pipe, unlink_pipe, release, read_only,
  null_access, unfinished,
}
use ex.Broker.{S, with_fs, stop_server}
use ex.Broker.Sessions.{code_r_pub, code_r_sub}
use ex.Broker.Requests.{code_c_box, code_r_box, code_l_box}

unfoldable pub selector : Env → ℕ → Text → Text → S (Unit {0})
selector env code session_pipe box_name =
    if code == r_pub
    then code_r_pub env session_pipe box_name
    else if code == r_sub
    then code_r_sub env session_pipe box_name
    else if code == c_box
    then code_c_box env session_pipe box_name
    else if code == r_box
    then code_r_box env session_pipe box_name
    else if code == l_box
    then code_l_box env session_pipe
    else stop_server

-- The loop of `main`. SIGINT makes `server_running` false at any time. The value is what `main`
-- returns: 1 where a read is interrupted, and otherwise -1.
unfoldable pub serve : Env → ℕ → ℤ → Request → S ℤ
serve env zero server_fifo old = fail unfinished
serve env (suc fuel) server_fifo old = do
  v ← get
  stopped ← ask env.interrupted
  if not (v.server_running && not stopped) then pure minus_one else (do
    (ret, request) ← read_into env server_fifo old
    e ← ask env.errno
    let again =
        selector env request.code (c_string request.session_pipe) (c_string request.box_name)
        >> serve env fuel server_fifo request
    if ret ==ℤ pos 0 then again else if e == eintr then pure (pos 1) else again)

-- The end of `main`, the same for both ways out of the loop.
unfoldable pub clean_up : Env → ℤ → ℤ → Ptr → Text → ℤ → S ℤ
clean_up env tfs_handle server_fifo queue server_pipe ret = do
  call_ env (release queue)
  closed ← with_fs (tfs_close env.pthread tfs_handle)
  call_ env (close_pipe server_fifo)
  call_ env (unlink_pipe server_pipe)
  pure ret

-- `main` behind the opening of the pipe.
unfoldable pub listen : Env → ℤ → ℤ → Ptr → Text → S ℤ
listen env tfs_handle server_fifo queue server_pipe = do
  modify (λ v. record v { server_running = true })
  call_ env (set_nonblock server_fifo)
  ret ← serve env env.fuel server_fifo zero_request
  clean_up env tfs_handle server_fifo queue server_pipe ret

-- `main` behind the check of the arguments.
unfoldable pub run : Env → Malloc → Text → S ℤ
run env heap server_pipe = do
  tfs_handle ← with_fs (tfs_init heap none)
  queue ← malloc_box env
  if queue == null then fail null_access else (do
    made ← call env (make_fifo server_pipe)
    e ← ask env.errno
    if (made ==ℤ minus_one) && (e == eexist) then pure (pos 1) else (do
      server_fifo ← call env (open_pipe server_pipe read_only)
      if server_fifo ==ℤ minus_one
          then (do call_ env (unlink_pipe server_pipe); pure (pos 1))
          else listen env tfs_handle server_fifo queue server_pipe))

unfoldable pub main : Env → Malloc → List Text → S ℤ
main env heap (name ∷ server_pipe ∷ max_sessions ∷ []) = do
  set ← call env set_signal
  if set ==ℤ minus_one then pure (pos 1) else run env heap server_pipe
main env heap _ = pure (pos 1)
