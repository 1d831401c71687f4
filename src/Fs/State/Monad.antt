-- ===== src/Fs/State/Monad.antt =====
-- A C function over the file system's state: it returns a value and the new state, or it stops, at
-- a failed assertion (`PANIC`) or at a memcpy that reads or writes outside the memory allocated for
-- `fs_data` or the caller's buffer. The other accesses, to the tables and to directory entries, have
-- no fault: what a table holds outside its allocation is just another value.
use ex.Common.{Bool, if◌then◌else◌}
use ex.Fs.State.Types.{Fs}

pub data Fault : Type 0 where
  panic bad_access : Fault

pub data Out (A : Type 0) : Type 0 where
  done : A → Fs → Out A
  stop : Fault → Out A

abbrev pub M : Type 0 → Type 0
M A = Fs → Out A

abbrev pub pure : {A : Type 0} → A → M A
pure a s = done a s

-- What follows a call: nothing, once the program has stopped.
abbrev pub and_then : {A B : Type 0} → Out A → (A → M B) → Out B
and_then (done a s) f = f a s
and_then (stop e) f = stop e

infixl 5 ◌>>=◌ ◌>>◌
abbrev pub ◌>>=◌ : {A B : Type 0} → M A → (A → M B) → M B
◌>>=◌ m f s = and_then (m s) f

abbrev pub ◌>>◌ : {A B : Type 0} → M A → M B → M B
m >> k = m >>= λ _. k

abbrev pub get : M Fs
get s = done s s

abbrev pub modify : (Fs → Fs) → M (Unit {0})
modify f s = done tt (f s)

-- `ALWAYS_ASSERT(c, ...)`
abbrev pub always_assert : Bool → M (Unit {0})
always_assert c s = if c then done tt s else stop panic

-- The call returns, and its value and the new state satisfy `P`.
pub data Returns {A : Type 0} (P : A → Fs → Type 0) : Out A → Type 0 where
  returns : {a : A} {s : Fs} → P a s → Returns P (done a s)

module _ {A : Type 0} {P : A → Fs → Type 0} where
  pub bind :
      {B : Type 0} {Q : B → Fs → Type 0} {r : Out A} {k : A → M B}
      → Returns P r
      → ((a : A) (s : Fs) → P a s → Returns Q (k a s))
      → Returns Q (and_then r k)
  bind (returns p) next = next _ _ p

  pub mono :
      {Q : A → Fs → Type 0} {r : Out A}
      → Returns P r
      → ((a : A) (s : Fs) → P a s → Q a s)
      → Returns Q r
  mono (returns p) weaken = returns (weaken _ _ p)

-- The state that a run leaves behind; `s` where it stops.
abbrev pub final : {A : Type 0} → Out A → Fs → Fs
final (done a t) s = t
final (stop e) s = s

pub Returns-final :
    {A : Type 0} {Q : Fs → Type 0} {r : Out A} (s : Fs) → Returns (λ _ t. Q t) r → Q (final r s)
Returns-final s (returns p) = p

-- Two facts about the same run.
pub both :
    {A : Type 0} {P Q : A → Fs → Type 0} {r : Out A}
    → Returns P r
    → Returns Q r
    → Returns (λ a s. P a s × Q a s) r
both (returns p) (returns q) = returns (p, q)
