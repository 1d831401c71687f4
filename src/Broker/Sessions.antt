-- ===== src/Broker/Sessions.antt =====
-- The handlers `codeR_PUB` and `codeR_SUB` of mbroker.c.
use ex.Common.{
  ℕ, zero, suc, Bool, true, false, none, some, List, ◌++◌, ◌==◌, if◌then◌else◌, length, drop,
}
use ex.Common.Int.{ℤ, pos, minus_one, ◌==ℤ◌, is_nonneg}
use ex.Fs.State.Memory.{Text}
use ex.Fs.Ops.Open.{tfs_open, tfs_close}
use ex.Fs.Ops.Transfer.{tfs_read, tfs_write}
use ex.Boxes
use ex.Boxes.{Ptr, Box}
use ex.Wire.{Request, request_size, zero_request, c_string, m_sub}
use ex.Process.{
  Env, pure, fail, ◌>>=◌, ◌>>◌, ask, call, call_, read_into, make_request, eagain, open_pipe,
  close_pipe, set_nonblock, write_request, read_only, write_only, unfinished, strip_last,
}
use ex.Broker.{S, with_fs, with_boxes, stop_server, find_box, set_publishers}

-- The loop of `codeR_PUB`. What is read, or was read before, goes to the box. The value says whether
-- the loop came to its end; otherwise the handler returns at once.
unfoldable pub publish : Env → ℕ → ℤ → ℤ → Request → S Bool
publish env zero box_handle session_fifo request = fail unfinished
publish env (suc fuel) box_handle session_fifo old = do
  (ret, request) ← read_into env session_fifo old
  e ← ask env.errno
  let store = with_fs (
      tfs_write env.pthread box_handle request.error_message
        (length (c_string request.error_message)))
  let again = publish env fuel box_handle session_fifo request
  if ret ==ℤ pos 0
      then (do store; again)
      else if e == eagain
      then (do store; pure true)
      else (do stop_server; pure false)

-- `codeR_PUB` behind the test for another publisher.
unfoldable pub open_publisher : Env → ℤ → Ptr → S (Unit {0})
open_publisher env session_fifo session_box = do
  set_publishers session_box 1
  b ← with_boxes (Boxes.load session_box)
  box_handle ← with_fs (tfs_open env.pthread (some b.box_name) 4)
  if box_handle ==ℤ minus_one
      then (do call_ env (close_pipe session_fifo); set_publishers session_box 0)
      else (do
        call_ env (set_nonblock session_fifo)
        ended ← publish env env.fuel box_handle session_fifo zero_request
        if ended
            then (do
              r ← with_fs (tfs_close env.pthread box_handle)
              set_publishers session_box 0
              call_ env (close_pipe session_fifo))
            else pure tt)

unfoldable pub code_r_pub : Env → Text → Text → S (Unit {0})
code_r_pub env session_pipe box_name = do
  session_fifo ← call env (open_pipe session_pipe write_only)
  if session_fifo ==ℤ minus_one then stop_server else (do
    session_box ← find_box env box_name
    b ← with_boxes (Boxes.load session_box)
    if b.n_publishers == 1
        then call_ env (close_pipe session_fifo)
        else open_publisher env session_fifo session_box)

-- The loop of `codeR_SUB`; `message` has 1026 bytes. `session_end` stays false, so that the loop
-- ends only where the handler returns.
unfoldable pub subscribe : Env → ℕ → ℤ → ℤ → List ℕ → S (Unit {0})
unfolding strip_last
subscribe env zero box_handle session_fifo old = fail unfinished
subscribe env (suc fuel) box_handle session_fifo old = do
  (ret, bytes) ← with_fs (tfs_read env.pthread box_handle 1026)
  if ret ==ℤ pos 0
      then (do
        message ← strip_last (bytes ++ drop (length bytes) old)
        request ← make_request m_sub none none (pos 0) (some (c_string message))
        written ← call env (write_request session_fifo request request_size)
        let again = subscribe env fuel box_handle session_fifo message
        if is_nonneg written then again else stop_server)
      else stop_server

-- `codeR_SUB`; what stands behind its loop is never reached.
unfoldable pub code_r_sub : Env → Text → Text → S (Unit {0})
code_r_sub env session_pipe box_name = do
  session_fifo ← call env (open_pipe session_pipe read_only)
  if session_fifo ==ℤ minus_one then stop_server else (do
    session_box ← find_box env box_name
    b ← with_boxes (Boxes.load session_box)
    if b.n_subscribers == 0 then call_ env (close_pipe session_fifo) else (do
      box_handle ← with_fs (tfs_open env.pthread (some b.box_name) 4)
      if box_handle ==ℤ minus_one then call_ env (close_pipe session_fifo) else (do
        message ← ask env.uninitialised
        subscribe env env.fuel box_handle session_fifo message)))
