-- ===== src/Clients.antt =====
-- What the three clients share: their variables, the end of `main`, and `send_request` of
-- projeto-so-2022-23/utils/utility_funcs.c.
pub mod Manager
pub mod Publisher
pub mod Subscriber
pub mod Calls
pub mod Listing
pub mod Counting
pub mod Answers
pub mod Messages
mod Tests
use ex.Common.{
  ℕ, zero, suc, ◌+◌, Bool, Option, none, some, List, [], ◌∷◌, ltb, ◌==◌, if◌then◌else◌, length,
}
use ex.Common.Int.{ℤ, pos, is_nonneg}
use ex.Fs.State.Memory.{Text}
use ex.Boxes
use ex.Boxes.{Ptr, Heap, null}
use ex.Wire.{request_size, max_pipe_name, max_box_name}
use ex.Process.{
  Env, Process, Out, done, stop, M, pure, fail, ◌>>=◌, ◌>>◌, call, call_, string, make_request,
  null_access, unfinished, overrun, exit_failure, write_request, close_pipe, unlink_pipe,
}

-- The variables of a client: the flag that SIGINT sets, and the manager's boxes.
pub record Client : Type 0 where
  pub session_end : Bool
  pub boxes : Heap

abbrev pub C : Type 0 → Type 0
C A = M Client A

abbrev pub from_boxes : {A : Type 0} → Boxes.Out A → C A
from_boxes (Boxes.done a h) p = done a (record p { variables = record p.variables { boxes = h } })
from_boxes Boxes.null_access p = stop null_access p
from_boxes Boxes.running p = stop unfinished p

abbrev pub with_boxes : {A : Type 0} → Boxes.M A → C A
with_boxes m p = from_boxes (m p.variables.boxes) p

-- `argv[i]`, NULL behind the last argument.
abbrev pub argument : List Text → ℕ → Option Text
argument [] i = none
argument (a ∷ argv) zero = some a
argument (a ∷ argv) (suc i) = argument argv i

-- `if (strlen(s) < n) memset(s + strlen(s), 0, n - strlen(s));` on an argument, whose array ends
-- with its NUL: where more than that NUL is written, the array is left.
unfoldable pub backfill : ℕ → Text → C (Unit {0})
backfill n s p = if ltb (length s + 1) n then stop overrun p else done tt p

unfoldable pub send_request : Env → ℕ → Option Text → Option Text → ℤ → C (Unit {0})
unfolding backfill
send_request env code session_pipe box_name rx = do
  session_text ← string session_pipe
  backfill max_pipe_name session_text
  box_text ← string box_name
  backfill max_box_name box_text
  request ← make_request code (some session_text) (some box_text) (pos 0) none
  written ← call env (write_request rx request request_size)
  if is_nonneg written then pure tt else fail exit_failure

-- `close(a); close(b); unlink(path); return v;`
abbrev pub leave : Env → ℤ → ℤ → Text → ℤ → C ℤ
leave env a b path v = do
  call_ env (close_pipe a)
  call_ env (close_pipe b)
  call_ env (unlink_pipe path)
  pure v
