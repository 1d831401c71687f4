-- ===== src/Broker/Calls.antt =====
-- No handler of mbroker.c gets as far as writing to a pipe: every `newRequest` has NULL names.
use ex.Common.{ℕ, zero, suc, ◌≡◌, refl, arith, Option, none, some, List, [], ◌∷◌}
use ex.Common.Int.{ℤ}
use ex.Fs.State.Memory.{Text}
use ex.Boxes.{Ptr}
use ex.Wire.{Request, new_request}
use ex.Process.{Env, Process}
use ex.Process.Silent.{sent, calls_of}
use ex.Broker.{Server}
use ex.Broker.Sessions.{publish, open_publisher, code_r_pub, subscribe, code_r_sub}
use ex.Broker.Requests.{
  reply, record_box, create_box, code_c_box, code_r_box, list_box, list_boxes, list_all, code_l_box,
}
use ex.Broker.Serve.{selector, serve, clean_up, listen, run, main}
use ex.Fs.State.Setup.{Malloc}

sent-publish :
    (env : Env) (fuel : ℕ) (box_handle session_fifo : ℤ) (old : Request) (p : Process Server)
    → sent (calls_of (publish env fuel box_handle session_fifo old p)) ≡ sent p.calls
unfolding publish
sent-publish env zero box_handle session_fifo old p = refl
sent-publish env (suc fuel) box_handle session_fifo old p =
    grind (arith, sent-publish env fuel box_handle session_fifo)

sent-open_publisher :
    (env : Env) (session_fifo : ℤ) (b : Ptr) (p : Process Server)
    → sent (calls_of (open_publisher env session_fifo b p)) ≡ sent p.calls
unfolding open_publisher
sent-open_publisher env session_fifo b p = grind (arith, sent-publish)

sent-code_r_pub :
    (env : Env) (session_pipe box_name : Text) (p : Process Server)
    → sent (calls_of (code_r_pub env session_pipe box_name p)) ≡ sent p.calls
unfolding code_r_pub
sent-code_r_pub env session_pipe box_name p = grind (arith, sent-open_publisher)

sent-subscribe :
    (env : Env) (fuel : ℕ) (box_handle session_fifo : ℤ) (old : List ℕ) (p : Process Server)
    → sent (calls_of (subscribe env fuel box_handle session_fifo old p)) ≡ sent p.calls
unfolding subscribe new_request
sent-subscribe env zero box_handle session_fifo old p = refl
sent-subscribe env (suc fuel) box_handle session_fifo old p = ground arith

sent-code_r_sub :
    (env : Env) (session_pipe box_name : Text) (p : Process Server)
    → sent (calls_of (code_r_sub env session_pipe box_name p)) ≡ sent p.calls
unfolding code_r_sub
sent-code_r_sub env session_pipe box_name p = grind (arith, sent-subscribe)

sent-reply :
    (env : Env) (session_fifo return_code : ℤ) (message : Text) (p : Process Server)
    → sent (calls_of (reply env session_fifo return_code message p)) ≡ sent p.calls
unfolding reply new_request
sent-reply env session_fifo return_code message p = refl

sent-record_box :
    (env : Env) (session_fifo : ℤ) (box_name : Text) (box_handle close_ret : ℤ) (p : Process Server)
    → sent (calls_of (record_box env session_fifo box_name box_handle close_ret p)) ≡ sent p.calls
unfolding record_box new_request
sent-record_box env session_fifo box_name box_handle close_ret p = grind (arith, sent-reply)

sent-create_box :
    (env : Env) (session_fifo : ℤ) (box_name : Text) (p : Process Server)
    → sent (calls_of (create_box env session_fifo box_name p)) ≡ sent p.calls
unfolding create_box
sent-create_box env session_fifo box_name p = grind (arith, sent-record_box)

sent-code_c_box :
    (env : Env) (session_pipe box_name : Text) (p : Process Server)
    → sent (calls_of (code_c_box env session_pipe box_name p)) ≡ sent p.calls
unfolding code_c_box
sent-code_c_box env session_pipe box_name p = grind (arith, sent-reply, sent-create_box)

sent-code_r_box :
    (env : Env) (session_pipe box_name : Text) (p : Process Server)
    → sent (calls_of (code_r_box env session_pipe box_name p)) ≡ sent p.calls
unfolding code_r_box
sent-code_r_box env session_pipe box_name p = grind (arith, sent-reply)

sent-list_boxes :
    (env : Env) (fuel : ℕ) (session_fifo : ℤ) (b : Ptr) (last : ℕ) (p : Process Server)
    → sent (calls_of (list_boxes env fuel session_fifo b last p)) ≡ sent p.calls
unfolding list_boxes list_box new_request
sent-list_boxes env zero session_fifo b last p = refl
sent-list_boxes env (suc fuel) session_fifo b last p = ground arith

sent-list_all :
    (env : Env) (session_fifo : ℤ) (head : Option Ptr) (p : Process Server)
    → sent (calls_of (list_all env session_fifo head p)) ≡ sent p.calls
unfolding list_all new_request
sent-list_all env session_fifo none p = ground arith
sent-list_all env session_fifo (some first) p = sent-list_boxes env env.fuel session_fifo first 0 p

sent-code_l_box :
    (env : Env) (session_pipe : Text) (p : Process Server)
    → sent (calls_of (code_l_box env session_pipe p)) ≡ sent p.calls
unfolding code_l_box
sent-code_l_box env session_pipe p = grind (arith, sent-list_all)

-- Whatever the request is, and whatever the boxes and the answers of the system are, the handler of
-- the request ends or stops without having written anything to a pipe.
sent-selector :
    (env : Env) (code : ℕ) (session_pipe box_name : Text) (p : Process Server)
    → sent (calls_of (selector env code session_pipe box_name p)) ≡ sent p.calls
unfolding selector
sent-selector env code session_pipe box_name p =
    grind
      (arith, sent-code_r_pub, sent-code_r_sub, sent-code_c_box, sent-code_r_box, sent-code_l_box)

sent-serve :
    (env : Env) (fuel : ℕ) (server_fifo : ℤ) (old : Request) (p : Process Server)
    → sent (calls_of (serve env fuel server_fifo old p)) ≡ sent p.calls
unfolding serve
sent-serve env zero server_fifo old p = refl
sent-serve env (suc fuel) server_fifo old p =
    grind (arith, sent-selector, sent-serve env fuel server_fifo)

sent-listen :
    (env : Env) (tfs_handle server_fifo : ℤ) (queue : Ptr) (server_pipe : Text) (p : Process Server)
    → sent (calls_of (listen env tfs_handle server_fifo queue server_pipe p)) ≡ sent p.calls
unfolding listen clean_up
sent-listen env tfs_handle server_fifo queue server_pipe p = grind (arith, sent-serve)

sent-run :
    (env : Env) (heap : Malloc) (server_pipe : Text) (p : Process Server)
    → sent (calls_of (run env heap server_pipe p)) ≡ sent p.calls
unfolding run
sent-run env heap server_pipe p = grind (arith, sent-listen)

-- However `main` of the broker ends, it has written no request to any pipe: not for any arguments,
-- requests, boxes and answers of the system, and not for any number of rounds.
pub sent-main :
    (env : Env) (heap : Malloc) (argv : List Text) (p : Process Server)
    → sent (calls_of (main env heap argv p)) ≡ sent p.calls
unfolding main
sent-main env heap [] p = refl
sent-main env heap (a ∷ []) p = refl
sent-main env heap (a ∷ b ∷ []) p = refl
sent-main env heap (a ∷ server_pipe ∷ c ∷ []) p = grind (arith, sent-run)
sent-main env heap (a ∷ b ∷ c ∷ d ∷ rest) p = refl
