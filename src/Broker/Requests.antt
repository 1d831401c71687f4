-- ===== src/Broker/Requests.antt =====
-- The handlers `codeC_BOX`, `codeR_BOX` and `codeL_BOX` of mbroker.c.
use ex.Common.{
  ℕ, zero, suc, Bool, true, false, not, ◌||◌, Option, none, some, [], ◌∷◌, ◌==◌, if◌then◌else◌,
  update,
}
use ex.Common.Int.{ℤ, pos, minus_one, ◌==ℤ◌, is_nonneg}
use ex.Fs.State.Memory.{Text}
use ex.Fs.Ops.Open.{tfs_open, tfs_close}
use ex.Fs.Ops.Unlink.{tfs_unlink}
use ex.Boxes as List_of_boxes
use ex.Boxes.{Ptr, null}
use ex.Wire.{request_size, full_box_size, r_r_box, r_l_box, m_sub}
use ex.Process.{
  Env, done, stop, pure, fail, ◌>>=◌, ◌>>◌, get, modify, call, call_, make_request, open_pipe,
  close_pipe, write_request, read_only, write_only, null_access, exit_failure, unfinished,
}
use ex.Broker.{S, with_fs, with_boxes, stop_server, answer, copied_message, find_box, new_box_b}

-- "Caixa já existe.", "Caixa não existe.", "Erro a criar a caixa." and "Erro a remover a caixa." in
-- UTF-8
abbrev box_exists : Text
box_exists =
    b'C' ∷ b'a' ∷ b'i' ∷ b'x' ∷ b'a' ∷ b' ' ∷ b'j' ∷ 0xC3 ∷ 0xA1 ∷ b' ' ∷ b'e' ∷ b'x' ∷ b'i' ∷ b's'
    ∷ b't' ∷ b'e' ∷ b'.' ∷ []

abbrev box_missing : Text
box_missing =
    b'C' ∷ b'a' ∷ b'i' ∷ b'x' ∷ b'a' ∷ b' ' ∷ b'n' ∷ 0xC3 ∷ 0xA3 ∷ b'o' ∷ b' ' ∷ b'e' ∷ b'x' ∷ b'i'
    ∷ b's' ∷ b't' ∷ b'e' ∷ b'.' ∷ []

abbrev creation_failed : Text
creation_failed =
    b'E' ∷ b'r' ∷ b'r' ∷ b'o' ∷ b' ' ∷ b'a' ∷ b' ' ∷ b'c' ∷ b'r' ∷ b'i' ∷ b'a' ∷ b'r' ∷ b' ' ∷ b'a'
    ∷ b' ' ∷ b'c' ∷ b'a' ∷ b'i' ∷ b'x' ∷ b'a' ∷ b'.' ∷ []

abbrev removal_failed : Text
removal_failed =
    b'E' ∷ b'r' ∷ b'r' ∷ b'o' ∷ b' ' ∷ b'a' ∷ b' ' ∷ b'r' ∷ b'e' ∷ b'm' ∷ b'o' ∷ b'v' ∷ b'e' ∷ b'r'
    ∷ b' ' ∷ b'a' ∷ b' ' ∷ b'c' ∷ b'a' ∷ b'i' ∷ b'x' ∷ b'a' ∷ b'.' ∷ []

-- An answer with a message, and the end of the handler.
unfoldable pub reply : Env → ℤ → ℤ → Text → S (Unit {0})
reply env session_fifo return_code message = do
  request ← make_request r_r_box none none return_code (some message)
  sent ← answer env session_fifo request
  pure tt

-- `insertion_sort(head, b)`
unfoldable pub insert_box : Env → Ptr → S (Unit {0})
insert_box env b = do
  v ← get
  first ← with_boxes (List_of_boxes.insertion_sort env.fuel v.head b)
  modify (λ w. record w { head = some first })

-- `codeC_BOX` behind the two calls that create the file. After a success the control reaches `ERROR`.
unfoldable pub record_box : Env → ℤ → Text → ℤ → ℤ → S (Unit {0})
unfolding insert_box
record_box env session_fifo box_name box_handle close_ret =
    if (box_handle ==ℤ minus_one) || (close_ret ==ℤ minus_one)
    then reply env session_fifo minus_one creation_failed
    else (do
      aux ← new_box_b env box_name 0 full_box_size 0 0
      insert_box env aux
      request ← make_request m_sub none none (pos 0) (some [])
      closed ← answer env session_fifo request
      if closed then fail exit_failure else pure tt)

-- `codeC_BOX` for a name that no box has.
unfoldable pub create_box : Env → ℤ → Text → S (Unit {0})
create_box env session_fifo box_name = do
  box_handle ← with_fs (tfs_open env.pthread (some box_name) 1)
  close_ret ← with_fs (tfs_close env.pthread box_handle)
  record_box env session_fifo box_name box_handle close_ret

unfoldable pub code_c_box : Env → Text → Text → S (Unit {0})
code_c_box env session_pipe box_name = do
  session_fifo ← call env (open_pipe session_pipe write_only)
  if session_fifo ==ℤ minus_one then stop_server else (do
    session_box ← find_box env box_name
    if not (session_box == null)
        then reply env session_fifo minus_one (copied_message box_exists)
        else create_box env session_fifo box_name)

-- `remove_box(head, box_name)`, which also changes `*head`.
unfoldable pub unlink_box : Env → Text → S (Unit {0})
unlink_box env box_name = do
  v ← get
  (removed, first) ← with_boxes (List_of_boxes.remove_box env.fuel v.head box_name)
  modify (λ w. record w { head = some first })

unfoldable pub code_r_box : Env → Text → Text → S (Unit {0})
unfolding unlink_box
code_r_box env session_pipe box_name = do
  session_fifo ← call env (open_pipe session_pipe read_only)
  if session_fifo ==ℤ minus_one then stop_server else (do
    session_box ← find_box env box_name
    if session_box == null
        then reply env session_fifo minus_one (copied_message box_missing)
        else (do
          ret ← with_fs (tfs_unlink env.pthread (some box_name))
          if ret ==ℤ minus_one
              then reply env session_fifo minus_one (copied_message removal_failed)
              else (do unlink_box env box_name; reply env session_fifo (pos 0) [])))

-- The request for one box of a listing; the value says whether it could be written.
unfoldable pub list_box : Env → ℤ → Ptr → Option Text → S Bool
list_box env session_fifo b message = do
  request ← make_request r_l_box none none (pos 0) message
  ret ← call env (write_request session_fifo (record request { boxa = b }) request_size)
  if is_nonneg ret then pure true else (do stop_server; pure false)

-- `aux->last = last`
abbrev set_last : Ptr → ℕ → S (Unit {0})
set_last b last p =
    if b == null
    then stop null_access p
    else done tt (record p {
      variables = record p.variables {
        boxes = update p.variables.boxes b (record (p.variables.boxes b) { last = last });
      };
    })

-- The loop over the list. The value is false if a write has failed.
unfoldable pub list_boxes : Env → ℕ → ℤ → Ptr → ℕ → S Bool
list_boxes env zero session_fifo aux last = fail unfinished
list_boxes env (suc fuel) session_fifo aux last = if aux == null then pure true else (do
  b ← with_boxes (List_of_boxes.load aux)
  let last' = if b.next == null then 1 else last
  set_last aux last'
  written ← list_box env session_fifo aux none
  let rest = list_boxes env fuel session_fifo b.next last'
  if written then rest else pure false)

-- The two ways to list, for `head` NULL or not.
unfoldable pub list_all : Env → ℤ → Option Ptr → S Bool
unfolding list_box
list_all env session_fifo none = do
  new_box ← new_box_b env [] 1 full_box_size 0 0
  list_box env session_fifo new_box (some [])
list_all env session_fifo (some first) = list_boxes env env.fuel session_fifo first 0

unfoldable pub code_l_box : Env → Text → S (Unit {0})
code_l_box env session_pipe = do
  session_fifo ← call env (open_pipe session_pipe read_only)
  if session_fifo ==ℤ minus_one then stop_server else (do
    v ← get
    written ← list_all env session_fifo v.head
    if written then call_ env (close_pipe session_fifo) else pure tt)
