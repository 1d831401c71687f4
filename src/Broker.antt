-- ===== src/Broker.antt =====
-- projeto-so-2022-23/mbroker/mbroker.c: the state of the broker, and what its handlers share. The
-- handlers are in Broker/Sessions (publisher and subscriber), Broker/Requests (create, remove, list)
-- and the loop over the requests in Broker/Serve.
pub mod Sessions
pub mod Requests
pub mod Serve
pub mod Calls
pub mod Quiet
pub mod Ends
pub mod Publish
mod Tests
use ex.Common.{
  ℕ, Bool, true, false, Option, none, some, List, [], ◌∷◌, ◌-◌, ltb, ◌==◌, if◌then◌else◌, length,
  take, update,
}
use ex.Common.Int.{ℤ, pos, minus_one, ◌==ℤ◌, is_nonneg}
use ex.Fs.State.Types.{Fs}
use ex.Fs.State.Memory.{Text}
use ex.Fs.State.Monad
use ex.Boxes
use ex.Boxes.{Ptr, Heap, Box, null}
use ex.Wire.{Request, request_size, max_message}
use ex.Process.{
  Env, Process, Out, done, stop, M, pure, fail, ◌>>=◌, ◌>>◌, get, modify, call, call_, null_access,
  unfinished, fs_fault, overrun, open_pipe, close_pipe, write_request, malloc_box, Access,
}

-- The variables of the broker: the file system, the boxes, `box *head`, which is `none` where it is
-- NULL, and `server_running`.
pub record Server : Type 0 where
  pub fs : Fs
  pub boxes : Heap
  pub head : Option Ptr
  pub server_running : Bool

abbrev pub S : Type 0 → Type 0
S A = M Server A

abbrev pub from_fs : {A : Type 0} → Monad.Out A → S A
from_fs (Monad.done a t) p = done a (record p { variables = record p.variables { fs = t } })
from_fs (Monad.stop e) p = stop fs_fault p

-- An operation of the file system.
abbrev pub with_fs : {A : Type 0} → Monad.M A → S A
with_fs m p = from_fs (m p.variables.fs) p

abbrev pub from_boxes : {A : Type 0} → Boxes.Out A → S A
from_boxes (Boxes.done a h) p = done a (record p { variables = record p.variables { boxes = h } })
from_boxes Boxes.null_access p = stop null_access p
from_boxes Boxes.running p = stop unfinished p

-- A function on the list of boxes.
abbrev pub with_boxes : {A : Type 0} → Boxes.M A → S A
with_boxes m p = from_boxes (m p.variables.boxes) p

-- `server_running = false; return;`
abbrev pub stop_server : S (Unit {0})
stop_server = modify (λ v. record v { server_running = false })

-- `write` of a whole request, and what follows: `server_running = false` if it fails, and otherwise
-- `close`. The value says whether it has not failed.
unfoldable pub answer : Env → ℤ → Request → S Bool
answer env session_fifo request = do
  ret ← call env (write_request session_fifo request request_size)
  if is_nonneg ret
      then (do call_ env (close_pipe session_fifo); pure true)
      else (do stop_server; pure false)

-- `strcpy(message, text); len = strlen(message); memset(message + len - 1, 0, MAX_MESSAGE - len);`
-- for a text that is not empty and fits: its last byte goes.
abbrev pub copied_message : Text → Text
copied_message text = take (length text - 1) text

-- `find_box(head, box_name)`
abbrev pub find_box : Env → Text → S Ptr
find_box env box_name p = with_boxes (Boxes.find_box env.fuel p.variables.head box_name) p

-- `newBox_b`
abbrev pub new_box_b : Env → Text → ℕ → ℕ → ℕ → ℕ → S Ptr
new_box_b env name last box_size n_publishers n_subscribers = do
  fresh ← malloc_box env
  with_boxes (Boxes.new_box_b fresh name last box_size n_publishers n_subscribers)

-- `b->n_publishers = n`
abbrev pub set_publishers : Ptr → ℕ → S (Unit {0})
set_publishers b n p =
    if b == null
    then stop null_access p
    else done tt (record p {
      variables = record p.variables {
        boxes = update p.variables.boxes b (record (p.variables.boxes b) { n_publishers = n });
      };
    })
