-- ===== src/Broker/Quiet.antt =====
-- `selector` of mbroker.c as the program runs it: `head` is NULL from the start, and nothing ever
-- changes it.
use ex.Common.{
  ℕ, ◌<◌, ◌≡◌, inl, inr, refl, arith, false, Bool-cases, none, some, List, [], ◌∷◌, ◌||◌, ◌==◌, All,
}
use ex.Common.Int.{ℤ, minus_one, ◌==ℤ◌}
use ex.Fs.State.Types.{Fs}
use ex.Fs.State.Memory.{Text, IsText}
use ex.Fs.State.Monad as File
use ex.Fs.Ops.Mutex.{IsPosix}
use ex.Fs.Valid.{IsValid}
use ex.Fs.Safe.Open.{tfs_open-Finished}
use ex.Fs.Safe.Close.{tfs_close-Finished}
use ex.Fs.Ops.Open.{tfs_open, tfs_close}
use ex.Boxes as List_of_boxes
use ex.Boxes.{null}
use ex.Wire.{c_string, new_request, r_pub, r_sub, c_box, r_box, l_box}
use ex.Process.{
  allocate, ◌>>=◌, Env, Process, Out, done, stop, null_access, and_then, open_pipe, read_only,
  write_only,
}
use ex.Broker.{Server, S, with_fs}
use ex.Broker.Sessions.{code_r_pub, code_r_sub}
use ex.Broker.Requests.{reply, record_box, create_box, code_c_box, code_r_box, code_l_box, list_all}
use ex.Broker.Serve.{selector}

-- A handler has given up, with the file system well-formed, or has read or written through NULL.
pub data Handled : Out Server (Unit {0}) → Type 0 where
  refused :
      {q : Process Server}
      → q.variables.server_running ≡ false
      → q.variables.head ≡ none
      → IsValid q.variables.fs
      → Handled (done tt q)
  crashed : {q : Process Server} → Handled (stop null_access q)

-- What follows an operation of the file system that returns.
pub with_fs-then :
    {A B : Type 0} {P : A → Fs → Type 0} (p : Process Server) (m : File.M A) (k : A → S B)
    (Q : Out Server B → Type 0)
    → File.Returns P (m p.variables.fs)
    → ((a : A) (t : Fs) → P a t → Q (k a (record p { variables = record p.variables { fs = t } })))
    → Q (and_then (with_fs m p) k)
with_fs-then {A} {B} {P} p m k Q h next = go (m p.variables.fs) h
  where
    go : (r : File.Out A) → File.Returns P r → Q (and_then (with_fs (λ s. r) p) k)
    go (File.done a t) (File.returns f) = next a t f
    go (File.stop e) h = elim h [ ]

pub c_string-IsText : (cs : List ℕ) → All (λ c. c < 256) cs → IsText (c_string cs)
unfolding c_string
c_string-IsText [] h = tt
c_string-IsText (c ∷ cs) h = ground (arith, c_string-IsText cs h.1)

module _ (env : Env) (posix : IsPosix env.pthread) where
  Handled-reply :
      (session_fifo return_code : ℤ) (message : Text) (p : Process Server)
      → Handled (reply env session_fifo return_code message p)
  unfolding reply new_request
  Handled-reply session_fifo return_code message p = crashed

  Handled-record_box :
      (session_fifo : ℤ) (box_name : Text) (box_handle close_ret : ℤ) (p : Process Server)
      → p.variables.head ≡ none
      → Handled (record_box env session_fifo box_name box_handle close_ret p)
  unfolding record_box List_of_boxes.new_box_b List_of_boxes.insertion_sort
  Handled-record_box session_fifo box_name a b p h =
      elim (Bool-cases ((a ==ℤ minus_one) || (b ==ℤ minus_one))) [
        | inl e ↦ rw e (Handled-reply session_fifo minus_one _ _)
        | inr e ↦ rw e (elim (Bool-cases (env.pointer (allocate ∷ p.calls) == null)) [
          | inl z ↦ rw z crashed
          | inr z ↦ rw (z, h) crashed
        ])
      ]

  -- A box is created in the file system at best, and never in the list.
  Handled-create_box :
      (session_fifo : ℤ) (box_name : Text) (p : Process Server)
      → p.variables.head ≡ none
      → IsValid p.variables.fs
      → IsText box_name
      → Handled (create_box env session_fifo box_name p)
  unfolding create_box
  Handled-create_box session_fifo box_name p h v t =
      with_fs-then p (tfs_open env.pthread (some box_name) 1)
        (λ a. with_fs (tfs_close env.pthread a) >>= record_box env session_fifo box_name a) Handled
        (tfs_open-Finished posix (some box_name) 1 _ v t)
        (λ a s fs.
          with_fs-then _ (tfs_close env.pthread a) (record_box env session_fifo box_name a) Handled
            (tfs_close-Finished posix a s fs.valid)
            (λ b u vu. Handled-record_box session_fifo box_name a b _ h))

  module _ (p : Process Server) (h : p.variables.head ≡ none) (v : IsValid p.variables.fs)
      (session_pipe box_name : Text) where
    Handled-code_r_pub : Handled (code_r_pub env session_pipe box_name p)
    unfolding code_r_pub List_of_boxes.find_box
    Handled-code_r_pub =
        elim (Bool-cases (env.result (open_pipe session_pipe write_only ∷ p.calls) ==ℤ minus_one)) [
          | inl e ↦ rw e (refused refl h v)
          | inr e ↦ rw (e, h) crashed
        ]

    Handled-code_r_sub : Handled (code_r_sub env session_pipe box_name p)
    unfolding code_r_sub List_of_boxes.find_box
    Handled-code_r_sub =
        elim (Bool-cases (env.result (open_pipe session_pipe read_only ∷ p.calls) ==ℤ minus_one)) [
          | inl e ↦ rw e (refused refl h v)
          | inr e ↦ rw (e, h) crashed
        ]

    Handled-code_c_box : IsText box_name → Handled (code_c_box env session_pipe box_name p)
    unfolding code_c_box List_of_boxes.find_box
    Handled-code_c_box t =
        elim (Bool-cases (env.result (open_pipe session_pipe write_only ∷ p.calls) ==ℤ minus_one)) [
          | inl e ↦ rw e (refused refl h v)
          | inr e ↦
              rw (e, h)
                (Handled-create_box _ box_name
                  (record {
                    variables = record p.variables { head = none };
                    calls = open_pipe session_pipe write_only ∷ p.calls;
                  })
                  refl v t)
        ]

    Handled-code_r_box : Handled (code_r_box env session_pipe box_name p)
    unfolding code_r_box List_of_boxes.find_box
    Handled-code_r_box =
        elim (Bool-cases (env.result (open_pipe session_pipe read_only ∷ p.calls) ==ℤ minus_one)) [
          | inl e ↦ rw e (refused refl h v)
          | inr e ↦ rw (e, h) (Handled-reply _ minus_one _ _)
        ]

    Handled-code_l_box : Handled (code_l_box env session_pipe p)
    unfolding code_l_box list_all List_of_boxes.new_box_b new_request
    Handled-code_l_box =
        elim (Bool-cases (env.result (open_pipe session_pipe read_only ∷ p.calls) ==ℤ minus_one)) [
          | inl e ↦ rw e (refused refl h v)
          | inr e ↦
              rw (e, h)
                (elim (Bool-cases
                  (env.pointer (allocate ∷ open_pipe session_pipe read_only ∷ p.calls) == null)) [
                    | inl z ↦ rw z crashed
                    | inr z ↦ rw z crashed
                  ])
        ]

    -- With `head` NULL, a well-formed file system, mutex calls that do not return -1, and a box name
    -- that is a C string, `selector` serves no request: for every code it makes `server_running`
    -- false and keeps the file system well-formed, or the program reads or writes through NULL.
    pub selector-Handled :
        (code : ℕ) → IsText box_name → Handled (selector env code session_pipe box_name p)
    unfolding selector
    selector-Handled code t = elim (Bool-cases (code == r_pub)) [
      | inl e ↦ rw e Handled-code_r_pub
      | inr e ↦ rw e (elim (Bool-cases (code == r_sub)) [
        | inl e ↦ rw e Handled-code_r_sub
        | inr e ↦ rw e (elim (Bool-cases (code == c_box)) [
          | inl e ↦ rw e (Handled-code_c_box t)
          | inr e ↦ rw e (elim (Bool-cases (code == r_box)) [
            | inl e ↦ rw e Handled-code_r_box
            | inr e ↦ rw e (elim (Bool-cases (code == l_box)) [
              | inl e ↦ rw e Handled-code_l_box
              | inr e ↦ rw e (refused refl h v)
            ])
          ])
        ])
      ])
    ]
