-- ===== src/Broker/Publish.antt =====
-- The session with a publisher in `codeR_PUB` of mbroker.c.
use ex.Common.{
  ℕ, zero, suc, ◌+◌, ◌<◌, ◌≤◌, ◌≡◌, ◌≢◌, inl, inr, arith, Bool, true, false, Bool-cases, some, List,
  [], ◌∷◌, ◌==◌, ltb, length, if◌then◌else◌, update_self,
}
use ex.Common.Int.{ℤ, pos, minus_one, ◌==ℤ◌}
use ex.Fs.State.Types.{Fs}
use ex.Fs.State.Memory.{IsText}
use ex.Fs.Ops.Mutex.{IsPosix}
use ex.Fs.Ops.Transfer.{tfs_write}
use ex.Fs.Ops.Open.{tfs_open, tfs_close}
use ex.Fs.Valid.{IsValid}
use ex.Fs.Safe.Open.{tfs_open-Finished}
use ex.Fs.Safe.Close.{tfs_close-Finished}
use ex.Fs.Safe.Write.{tfs_write-Counted}
use ex.Boxes.{Ptr, null}
use ex.Wire.{Request, c_string, zero_request}
use ex.Process.{
  Env, Process, Call, Out, done, and_then, ◌>>=◌, ◌>>◌, read_request, eagain, filled, is_positive,
  call_, close_pipe, pure,
}
use ex.Process.Count.{reads}
use ex.Broker.{Server, S, with_fs, set_publishers}
use ex.Broker.Sessions.{publish, open_publisher}
use ex.Broker.Quiet.{with_fs-then}

-- A run that returns, with a well-formed file system.
pub data Kept {A : Type 0} : Out Server A → Type 0 where
  kept : {a : A} {q : Process Server} → IsValid q.variables.fs → Kept (done a q)

-- The string in an array is not longer than the array.
length-c_string : (cs : List ℕ) → length (c_string cs) ≤ length cs
unfolding c_string
length-c_string [] = omega arith
length-c_string (c ∷ cs) = ground (arith, length-c_string cs)

-- The message of a request fits its array.
abbrev pub IsSized : Request → Type 0
IsSized r = length r.error_message ≤ 1025

module _ (env : Env) (posix : IsPosix env.pthread)
    (sized : (cs : List Call) → IsSized (env.received cs)) (session_fifo : ℤ) (k : ℕ)
    (ends : (cs : List Call)
      → k ≤ suc (reads cs)
      → (env.result (read_request session_fifo ∷ cs) ==ℤ pos 0) ≡ false) where
  filled-IsSized : (old : Request) (cs : List Call) → IsSized old → IsSized (filled env cs old)
  filled-IsSized old cs b = pick (env.result cs)
    where
      pick : (z : ℤ) → IsSized (if is_positive z then env.received cs else old)
      pick z = elim (Bool-cases (is_positive z)) [ inl e ↦ rw e (sized cs) | inr e ↦ rw e b ]

  -- A message goes to the box, and the run goes on.
  store-Kept :
      {A : Type 0} (box_handle : ℤ) (request : Request) (p : Process Server) (next : S A)
      → IsSized request
      → IsValid p.variables.fs
      → ((t : Fs)
          → IsValid t
          → Kept (next (record p { variables = record p.variables { fs = t } })))
      → Kept (
          (with_fs (
                tfs_write env.pthread box_handle request.error_message
                  (length (c_string request.error_message)))
              >> next)
            p)
  store-Kept box_handle request p next b v continue =
      with_fs-then p
        (tfs_write env.pthread box_handle request.error_message
          (length (c_string request.error_message)))
        (λ z. next) Kept
        (tfs_write-Counted posix box_handle request.error_message
          (length (c_string request.error_message)) p.variables.fs v
          (length-c_string request.error_message)
          (omega (arith, length-c_string request.error_message, b, v.params.block_size_fits)))
        (λ r t c. continue t c.0.valid)

  -- Behind a read of nothing there is fuel for another round.
  fuel_left :
      (fuel : ℕ) (p : Process Server)
      → k < suc fuel + reads p.calls
      → (env.result (read_request session_fifo ∷ p.calls) ==ℤ pos 0) ≡ true
      → 0 < fuel
  fuel_left fuel p enough e = elim (Bool-cases (ltb (suc (reads p.calls)) k)) [
    | inl l ↦ ground arith
    | inr l ↦ let z : k ≤ suc (reads p.calls) = ground arith in cc (e, ends p.calls z)
  ]

  publish-Kept :
      (fuel : ℕ) (box_handle : ℤ) (old : Request) (p : Process Server)
      → IsValid p.variables.fs
      → IsSized old
      → k < fuel + reads p.calls
      → 0 < fuel
      → Kept (publish env fuel box_handle session_fifo old p)
  unfolding publish
  publish-Kept zero box_handle old p v b enough some_fuel = absurd (omega arith)
  publish-Kept (suc fuel) box_handle old p v b enough some_fuel =
      let cs = read_request session_fifo ∷ p.calls in
      let b' = filled-IsSized old cs b in
      elim (Bool-cases (env.result cs ==ℤ pos 0)) [
        | inl e ↦ rw e (
            store-Kept box_handle (filled env cs old) (record p { calls = cs }) _ b' v
              (λ t vt.
                publish-Kept fuel box_handle (filled env cs old) _ vt b' (omega arith)
                  (fuel_left fuel p enough e)))
        | inr e ↦ rw e (elim (Bool-cases (env.errno cs == eagain)) [
          | inl e ↦ rw e (
              store-Kept box_handle (filled env cs old) (record p { calls = cs }) _ b' v
                (λ t vt. kept vt))
          | inr e ↦ rw e (kept v)
        ])
      ]

  -- What follows the loop.
  end :
      (session_box : Ptr) (box_handle : ℤ)
      → (session_box == null) ≡ false
      → {r : Out Server Bool} → Kept r
      → Kept (
          and_then r (λ ended.
            if ended
            then (do
              z ← with_fs (tfs_close env.pthread box_handle)
              set_publishers session_box 0
              call_ env (close_pipe session_fifo))
            else pure tt))
  end session_box box_handle there (kept {a = true} v) =
      with_fs-then _ (tfs_close env.pthread box_handle)
        (λ z. set_publishers session_box 0 >> call_ env (close_pipe session_fifo)) Kept
        (tfs_close-Finished posix box_handle _ v) (λ z t f. rw there (kept f.valid))
  end session_box box_handle there (kept {a = false} v) = kept v

  -- The session of the publisher's handler behind the test for another publisher, for a box with a C
  -- string as its name: in a well-formed file system, with mutex calls that do not return -1, messages
  -- that fit their array, a session pipe whose reads return another value than 0 from the `k`-th read
  -- of the broker on, and fuel for one round more than there are reads left until then, it returns,
  -- whatever is read and whatever the other calls return, and the file system is well-formed.
  pub open_publisher-Kept :
      (session_box : Ptr) (p : Process Server)
      → IsValid p.variables.fs
      → session_box ≢ null
      → IsText (p.variables.boxes session_box).box_name
      → k < env.fuel + reads p.calls
      → 0 < env.fuel
      → Kept (open_publisher env session_fifo session_box p)
  unfolding open_publisher
  open_publisher-Kept session_box p v ne text enough some_fuel =
      let there : (session_box == null) ≡ false = ground arith in
      rw
        (
          there,
          update_self p.variables.boxes session_box
              (record (p.variables.boxes session_box) { n_publishers = 1 }),
          there,
        )
        (with_fs-then _ (tfs_open env.pthread (some (p.variables.boxes session_box).box_name) 4) _
          Kept (tfs_open-Finished posix (some (p.variables.boxes session_box).box_name) 4 _ v text)
          (λ h t f. elim (Bool-cases (h ==ℤ minus_one)) [
            | inl e ↦ rw (e, there) (kept f.valid)
            | inr e ↦ rw e (
                end session_box h there
                  (publish-Kept env.fuel h zero_request _ f.valid (omega arith) enough some_fuel))
          ]))
