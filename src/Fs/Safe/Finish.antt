-- ===== src/Fs/Safe/Finish.antt =====
-- The beginning and the end that the operations of fs/operations.c share: the mutex and the check
-- of the path name.
use ex.Common.{
  ◌<◌, ◌≡◌, Bool, true, false, Option, none, some, [], ◌∷◌, length, arith, if◌then◌else◌,
}
use ex.Common.Int.{ℤ, pos, ◌==ℤ◌}
use ex.Fs.State.Types.{Fs}
use ex.Fs.State.Memory.{Text, IsText}
use ex.Fs.State.Monad.{M, done, Returns, returns}
use ex.Fs.Ops.Mutex.{Pthread, IsPosix, unlock_return, with_lock, valid_pathname, skip_slash}
use ex.Fs.Valid.{IsValid}

-- How an operation leaves the state: well-formed, and with the mutex given back if the call that
-- gives it back works.
pub record Finished (pt : Pthread) (s : Fs) : Type 0 where
  pub valid : IsValid s
  pub unlocked : pt.unlock_result ≡ pos 0 → s.locked ≡ false

pub IsValid-locked : {s : Fs} (b : Bool) → IsValid s → IsValid (record s { locked = b })
IsValid-locked b v = record {
  params = v.params;
  root = v.root;
  files = v.files;
  handles = v.handles;
  dir = v.dir;
}

abbrev pub unlocked : Pthread → Fs → Fs
unlocked pt s = record s { locked = if pt.unlock_result ==ℤ pos 0 then false else s.locked }

abbrev pub locked_by : Pthread → Fs → Fs
locked_by pt s = record s { locked = if pt.lock_result ==ℤ pos 0 then true else s.locked }

module _ {pt : Pthread} (posix : IsPosix pt) where
  pub unlock_return-done : (v : ℤ) (s : Fs) → unlock_return pt v s ≡ done v (unlocked pt s)
  unfolding unlock_return
  unlock_return-done v s = rw posix.unlock_ne

  pub Finished-unlocked : {s : Fs} → IsValid s → Finished pt (unlocked pt s)
  Finished-unlocked {s} v = record { valid = IsValid-locked _ v; unlocked = λ e. rw e }

  pub unlock_return-Finished :
      {s : Fs} (v : ℤ) → IsValid s → Returns (λ _ t. Finished pt t) (unlock_return pt v s)
  unlock_return-Finished {s} v ok = rw (unlock_return-done v s) (returns (Finished-unlocked ok))

  pub with_lock-done : (body : M ℤ) (s : Fs) → with_lock pt body s ≡ body (locked_by pt s)
  unfolding with_lock
  with_lock-done body s = rw posix.lock_ne

-- A path name is NULL or a C string.
abbrev pub IsString : Option Text → Type 0
IsString none = Unit
IsString (some s) = IsText s

-- A valid path name is a slash and a text that is not empty.
pub skip_slash_lem :
    (name : Option Text)
    → IsString name
    → valid_pathname name ≡ true
    → IsText (skip_slash name) × (0 < length (skip_slash name))
unfolding valid_pathname
skip_slash_lem none t h = cc
skip_slash_lem (some []) t h = cc
skip_slash_lem (some (c ∷ s)) t h = (t.1, ground arith)
