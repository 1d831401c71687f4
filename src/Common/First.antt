-- ===== src/Common/First.antt =====
-- The loop `for (i = 0; i < n; i++) if (test(i)) return ...;`: the first index that passes a test.
use Prim.Native.Nat.{ℕ, zero, suc, ◌+◌, ◌<◌}
use mathlib.Core.Path.{◌≡◌, subst, ap}
use mathlib.Core.Logic.{inl, inr}
use mathlib.Core.Bool.{Bool, true, false}
use mathlib.Core.Option.{Option, none, some}
use native.Mathlib.Omega.{arith}
use native.Mathlib.Decide.{dec_lt}
use ex.Common.Tests.{if◌then◌else◌, Bool-cases, Option-cases}

-- `k` rounds are left, and `i` is the index of the next.
first_from : (ℕ → Bool) → ℕ → ℕ → Option ℕ
first_from test zero i = none
first_from test (suc k) i = let rest = first_from test k (suc i) in if test i then some i else rest

unfoldable pub first_index : ℕ → (ℕ → Bool) → Option ℕ
unfolding first_from
first_index n test = first_from test n 0

-- `j` is the first index below `n` that passes.
pub record IsFirst (test : ℕ → Bool) (n j : ℕ) : Type 0 where
  pub below : j < n
  pub passes : test j ≡ true
  pub before : (i : ℕ) → i < j → test i ≡ false

pub data FirstResult (test : ℕ → Bool) (n : ℕ) : Option ℕ → Type 0 where
  missing : ((i : ℕ) → i < n → test i ≡ false) → FirstResult test n none
  found : (j : ℕ) → IsFirst test n j → FirstResult test n (some j)

first_from_lem :
    (test : ℕ → Bool) (k i : ℕ)
    → ((m : ℕ) → m < i → test m ≡ false)
    → FirstResult test (i + k) (first_from test k i)
unfolding first_from
first_from_lem test zero i h = missing (λ m lt. h m (omega arith))
first_from_lem test (suc k) i h = elim (Bool-cases (test i)) [
  | inl hit ↦ rw hit (found i (record { below = omega arith; passes = hit; before = h }))
  | inr miss ↦ rw miss (
      subst (λ n. FirstResult test n (first_from test k (suc i))) (omega arith)
        (first_from_lem test k (suc i) (λ m lt. elim (dec_lt m i) [
          | yes p ↦ h m p
          | no p ↦ subst (λ z. test z ≡ false) (omega arith) miss
        ])))
]

pub first_index_lem : (n : ℕ) (test : ℕ → Bool) → FirstResult test n (first_index n test)
unfolding first_index
first_index_lem n test =
    subst (λ m. FirstResult test m (first_from test n 0)) (omega arith)
      (first_from_lem test n 0 (λ m lt. elim lt [ ]))

pub first_index-eq_some :
    (n : ℕ) (test : ℕ → Bool) {j : ℕ} → first_index n test ≡ some j → IsFirst test n j
first_index-eq_some n test {j} e = go (first_index n test) (first_index_lem n test) e
  where
    go : (o : Option ℕ) → FirstResult test n o → o ≡ some j → IsFirst test n j
    go none (missing h) e = absurd (cc)
    go (some i) (found _ p) e = subst (IsFirst test n) (cc) p

pub first_index-eq_none :
    (n : ℕ) (test : ℕ → Bool) → first_index n test ≡ none → (i : ℕ) → i < n → test i ≡ false
first_index-eq_none n test e = go (first_index n test) (first_index_lem n test) e
  where
    go : (o : Option ℕ) → FirstResult test n o → o ≡ none → (i : ℕ) → i < n → test i ≡ false
    go none (missing h) e = h
    go (some i) (found _ p) e = absurd (cc)

-- The first index is unique.
pub first_index-of_first :
    (n : ℕ) (test : ℕ → Bool) {j : ℕ} → IsFirst test n j → first_index n test ≡ some j
first_index-of_first n test {j} p = elim (Option-cases (first_index n test)) [
  | inl e ↦ cc (first_index-eq_none n test e j p.below, p.passes)
  | inr (i, e) ↦ let q = first_index-eq_some n test e in rw e (ap some (same i q))
]
  where
    same : (i : ℕ) → IsFirst test n i → i ≡ j
    same i q = elim (dec_lt i j) [
      | yes lt ↦ cc (p.before i lt, q.passes)
      | no ge ↦ elim (dec_lt j i) [ yes lt ↦ cc (q.before j lt, p.passes) | no le ↦ omega arith ]
    ]

pub first_index-of_none :
    (n : ℕ) (test : ℕ → Bool) → ((i : ℕ) → i < n → test i ≡ false) → first_index n test ≡ none
first_index-of_none n test h = elim (Option-cases (first_index n test)) [
  | inl e ↦ e
  | inr (i, e) ↦ let q = first_index-eq_some n test e in cc (h i q.below, q.passes)
]
