-- ===== src/Broker/Ends.antt =====
-- The loop of `main` in mbroker.c ends after one request at most.
use ex.Common.{
  ℕ, zero, suc, ◌<◌, ◌≤◌, ◌≡◌, ◌⊎◌, inl, inr, refl, arith, true, false, not, ◌&&◌, Bool-cases, none,
  List, [], ◌∷◌, ◌==◌, if◌then◌else◌, All, replicate,
}
use ex.Common.Int.{ℤ, pos, minus_one, ◌==ℤ◌}
use ex.Fs.State.Setup.{Malloc, all_ok}
use ex.Fs.Ops.Mutex.{IsPosix}
use ex.Fs.Ops.Init.{tfs_init, tfs_default_params}
use ex.Fs.Ops.Open.{tfs_close}
use ex.Fs.Valid.{IsValid}
use ex.Fs.Safe.Init.{tfs_init-IsValid}
use ex.Fs.Safe.Close.{tfs_close-Finished}
use ex.Boxes.{Ptr, null}
use ex.Fs.State.Memory.{Text}
use ex.Wire.{Request, zero_request, c_string}
use ex.Process.{
  Env, Process, Call, Out, done, stop, null_access, and_then, ◌>>◌, read_request, eintr, eexist,
  filled, is_positive, call_, pure, close_pipe, unlink_pipe, allocate, set_signal, make_fifo,
  open_pipe, read_only,
}
use ex.Broker.{Server}
use ex.Broker.Serve.{selector, serve, clean_up, listen, run, main}
use ex.Broker.Quiet.{Handled, refused, selector-Handled, c_string-IsText, with_fs-then}

-- The chars of the box name are bytes.
abbrev pub IsBytes : Request → Type 0
IsBytes r = All (λ c. c < 256) r.box_name

-- The loop has ended, with a well-formed file system, or the program has read or written through
-- NULL.
pub data Served : Out Server ℤ → Type 0 where
  ended :
      {r : ℤ} {q : Process Server}
      → (r ≡ pos 1) ⊎ (r ≡ minus_one)
      → IsValid q.variables.fs
      → Served (done r q)
  crashed : {q : Process Server} → Served (stop null_access q)

-- How `main` ends: it returns 1 before it has a file system, or as the loop does.
pub data Ran (p : Process Server) : Out Server ℤ → Type 0 where
  not_started : {q : Process Server} → q.variables ≡ p.variables → Ran p (done (pos 1) q)
  served : {r : Out Server ℤ} → Served r → Ran p r

-- After `server_running` has become false.
serve_stopped :
    (env : Env) (fuel : ℕ) (fd : ℤ) (old : Request) (q : Process Server)
    → q.variables.server_running ≡ false
    → IsValid q.variables.fs
    → Served (serve env (suc fuel) fd old q)
unfolding serve
serve_stopped env fuel fd old q h v = rw h (ended (inr refl) v)

module _ (env : Env) (posix : IsPosix env.pthread)
    (bytes : (cs : List Call) → IsBytes (env.received cs)) where
  round :
      (fuel : ℕ) (fd : ℤ) (request : Request) (p : Process Server)
      → p.variables.head ≡ none
      → IsValid p.variables.fs
      → IsBytes request
      → Served (
          (selector env request.code (c_string request.session_pipe) (c_string request.box_name)
              >> serve env (suc fuel) fd request)
            p)
  round fuel fd request p h v b = go (
      selector-Handled env posix p h v (c_string request.session_pipe) (c_string request.box_name)
        request.code (c_string-IsText request.box_name b))
    where
      go :
          {r : Out Server (Unit {0})}
          → Handled r
          → Served (and_then r (λ _. serve env (suc fuel) fd request))
      go (refused s h v) = serve_stopped env fuel fd request _ s v
      go Handled.crashed = crashed

  -- The request that is in the buffer after a read.
  filled-IsBytes : (old : Request) (cs : List Call) → IsBytes old → IsBytes (filled env cs old)
  filled-IsBytes old cs b = pick (env.result cs)
    where
      pick : (z : ℤ) → IsBytes (if is_positive z then env.received cs else old)
      pick z = elim (Bool-cases (is_positive z)) [ inl e ↦ rw e (bytes cs) | inr e ↦ rw e b ]

  -- With `head` NULL, a well-formed file system, mutex calls that do not return -1, and box names
  -- made of bytes, the loop of `main` ends, whatever is read: two rounds of fuel are enough, since
  -- no request is followed by another.
  serve-Served :
      (fuel : ℕ) (fd : ℤ) (old : Request) (p : Process Server)
      → 2 ≤ fuel
      → p.variables.head ≡ none
      → IsValid p.variables.fs
      → IsBytes old
      → Served (serve env fuel fd old p)
  unfolding serve
  serve-Served zero fd old p two h v b = absurd (omega arith)
  serve-Served (suc zero) fd old p two h v b = absurd (omega arith)
  serve-Served (suc (suc fuel)) fd old p two h v b =
      let cs = read_request fd ∷ p.calls in
      let next =
        round fuel fd (filled env cs old) (record { variables = p.variables; calls = cs }) h v
          (filled-IsBytes old cs b) in
      elim (Bool-cases (not (p.variables.server_running && not (env.interrupted p.calls)))) [
        | inl e ↦ rw e (ended (inr refl) v)
        | inr e ↦ rw e (elim (Bool-cases (env.result cs ==ℤ pos 0)) [
          | inl z ↦ rw z next
          | inr z ↦ rw z (elim (Bool-cases (env.errno cs == eintr)) [
            | inl i ↦ rw i (ended (inl refl) v)
            | inr i ↦ rw i next
          ])
        ])
      ]

  clean_up-Served :
      (tfs_handle fd : ℤ) (queue : Ptr) (server_pipe : Text) {r : Out Server ℤ}
      → Served r
      → Served (and_then r (clean_up env tfs_handle fd queue server_pipe))
  unfolding clean_up
  clean_up-Served tfs_handle fd queue server_pipe (ended {r} e v) =
      with_fs-then _ (tfs_close env.pthread tfs_handle)
        (λ c. call_ env (close_pipe fd) >> (call_ env (unlink_pipe server_pipe) >> pure r)) Served
        (tfs_close-Finished posix tfs_handle _ v) (λ c t f. ended e f.valid)
  clean_up-Served tfs_handle fd queue server_pipe crashed = crashed

  run-Served :
      (heap : Malloc) (server_pipe : Text) (p : Process Server)
      → 2 ≤ env.fuel
      → p.variables.head ≡ none
      → p.variables.fs.allocated ≡ none
      → all_ok heap ≡ true
      → Served (run env heap server_pipe p)
  unfolding run listen
  run-Served heap server_pipe p enough h fresh ok =
      with_fs-then p (tfs_init heap none) _ Served
        (tfs_init-IsValid heap tfs_default_params (omega arith) p.variables.fs none refl fresh ok)
        (λ a t (z, v). elim (Bool-cases (env.pointer cs == null)) [
          | inl e ↦ rw e crashed
          | inr e ↦
              rw e (elim (Bool-cases ((env.result ms ==ℤ minus_one) && (env.errno ms == eexist))) [
                | inl e ↦ rw e (ended (inl refl) v)
                | inr e ↦ rw e (elim (Bool-cases (env.result os ==ℤ minus_one)) [
                  | inl e ↦ rw e (ended (inl refl) v)
                  | inr e ↦ rw e (
                      clean_up-Served a (env.result os) (env.pointer cs) server_pipe (
                        serve-Served env.fuel (env.result os) zero_request _ enough h v
                          (zero_bytes 33)))
                ])
              ])
        ])
    where
      cs : List Call
      cs = allocate ∷ p.calls

      ms : List Call
      ms = make_fifo server_pipe ∷ allocate ∷ p.calls

      os : List Call
      os = open_pipe server_pipe read_only ∷ make_fifo server_pipe ∷ allocate ∷ p.calls

      zero_bytes : (n : ℕ) → All (λ c. c < 256) (replicate n 0)
      zero_bytes zero = tt
      zero_bytes (suc n) = (omega arith, zero_bytes n)

  -- Started without a file system and with `head` NULL, with mutex calls that do not return -1,
  -- malloc giving memory for each table of the file system, received box names made of bytes, and
  -- fuel for two rounds, `main` ends, whatever its arguments are and whatever is read: it returns 1
  -- with all variables as they were; or it returns 1 or -1 with a well-formed file system; or the
  -- program reads or writes through NULL.
  pub main-Ran :
      (heap : Malloc) (argv : List Text) (p : Process Server)
      → 2 ≤ env.fuel
      → p.variables.head ≡ none
      → p.variables.fs.allocated ≡ none
      → all_ok heap ≡ true
      → Ran p (main env heap argv p)
  unfolding main
  main-Ran heap [] p enough h fresh ok = not_started refl
  main-Ran heap (a ∷ []) p enough h fresh ok = not_started refl
  main-Ran heap (a ∷ b ∷ []) p enough h fresh ok = not_started refl
  main-Ran heap (a ∷ server_pipe ∷ c ∷ []) p enough h fresh ok =
      elim (Bool-cases (env.result (set_signal ∷ p.calls) ==ℤ minus_one)) [
        | inl e ↦ rw e (not_started refl)
        | inr e ↦ rw e (served (run-Served heap server_pipe _ enough h fresh ok))
      ]
  main-Ran heap (a ∷ b ∷ c ∷ d ∷ rest) p enough h fresh ok = not_started refl
