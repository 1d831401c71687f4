-- ===== src/Fs/State/Memory/Compare.antt =====
-- Comparing a name in memory with a text.
use ex.Common.{
  ℕ, zero, suc, ◌+◌, ◌≤◌, ◌<◌, ◌≡◌, refl, subst, true, false, [], ◌∷◌, arith, length, get_or,
}
use ex.Fs.State.Memory.{Memory, Text, IsText, strncpy_bytes, strcmp_eq, strncmp_eq}
use ex.Fs.State.Memory.Bytes.{Agree}

pub strncmp_eq-Agree :
    (m m' : Memory) (a : ℕ) (s : Text) (n : ℕ)
    → Agree m m' a n
    → strncmp_eq m' a s n ≡ strncmp_eq m a s n
unfolding strncmp_eq
strncmp_eq-Agree m m' a s zero h = refl
strncmp_eq-Agree m m' a [] (suc n) h = rw (h a (omega arith) (omega arith))
strncmp_eq-Agree m m' a (c ∷ s) (suc n) h = rw (
  h a (omega arith) (omega arith),
  strncmp_eq-Agree m m' (a + 1) s n (λ p l u. h p (omega arith) (omega arith)),
)

-- On a name that ends within `n + 1` bytes, strcmp and strncmp agree.
pub strcmp_eq-strncmp_eq :
    (m : Memory) (a : ℕ) (s : Text) (n : ℕ)
    → IsText s
    → m (a + n) ≡ 0
    → strcmp_eq m a s ≡ strncmp_eq m a s (suc n)
unfolding strcmp_eq strncmp_eq
strcmp_eq-strncmp_eq m a [] n t h = refl
strcmp_eq-strncmp_eq m a (c ∷ s) zero t h =
    let e : m a ≡ 0 = rw (← (let z : a + 0 ≡ a = omega arith in z)) h in rw e (ground arith)
strcmp_eq-strncmp_eq m a (c ∷ s) (suc n) t h =
    rw (strcmp_eq-strncmp_eq m (a + 1) s n t.1 (subst (λ p. m p ≡ 0) (omega arith) h))

-- A name whose first byte is NUL is no text but the empty one.
pub strcmp_eq_empty :
    (m : Memory) (a : ℕ) (s : Text) → IsText s → 0 < length s → m a ≡ 0 → strcmp_eq m a s ≡ false
unfolding strcmp_eq
strcmp_eq_empty m a [] t l h = absurd (omega arith)
strcmp_eq_empty m a (c ∷ s) t l h = rw h (ground arith)

-- Two texts that a name equals, if it ends within `n + 1` bytes, are equal.
pub strncmp_eq_unique :
    (m : Memory) (a : ℕ) (s t : Text) (n : ℕ)
    → IsText s
    → IsText t
    → m (a + n) ≡ 0
    → strncmp_eq m a s (suc n) ≡ true
    → strncmp_eq m a t (suc n) ≡ true
    → s ≡ t
unfolding strncmp_eq
strncmp_eq_unique m a [] [] n hs ht z p q = refl
strncmp_eq_unique m a [] (d ∷ t) n hs ht z p q = absurd (ground arith)
strncmp_eq_unique m a (c ∷ s) [] n hs ht z p q = absurd (ground arith)
strncmp_eq_unique m a (c ∷ s) (d ∷ t) zero hs ht z p q =
    let e : m a ≡ 0 = subst (λ k. m k ≡ 0) (omega arith) z in absurd (ground arith)
strncmp_eq_unique m a (c ∷ s) (d ∷ t) (suc n) hs ht z p q =
    let rest =
      strncmp_eq_unique m (a + 1) s t n hs.1 ht.1 (subst (λ k. m k ≡ 0) (omega arith) z)
        (ground arith) (ground arith) in
    let head : c ≡ d = ground arith in cc

-- The bytes that strncpy writes, and a NUL behind them, compare equal to the text.
pub strncmp_eq_copied :
    (m : Memory) (a : ℕ) (s : Text) (n : ℕ)
    → length s ≤ n
    → ((i : ℕ) → i < n → m (a + i) ≡ get_or (strncpy_bytes s n) i 0)
    → m (a + n) ≡ 0
    → strncmp_eq m a s (suc n) ≡ true
unfolding strncmp_eq strncpy_bytes
strncmp_eq_copied m a [] zero l h z = let e : m a ≡ 0 = subst (λ k. m k ≡ 0) (omega arith) z in rw e
strncmp_eq_copied m a [] (suc n) l h z =
    let e : m a ≡ 0 = subst (λ k. m k ≡ 0) (omega arith) (h 0 (omega arith)) in rw e
strncmp_eq_copied m a (c ∷ s) zero l h z = absurd (omega arith)
strncmp_eq_copied m a (c ∷ s) (suc n) l h z =
    let e : m a ≡ c = subst (λ k. m k ≡ c) (omega arith) (h 0 (omega arith)) in
    rw
      (
        e,
        strncmp_eq_copied m (a + 1) s n (omega arith)
            (λ i lt.
              subst (λ k. m k ≡ get_or (strncpy_bytes s n) i 0) (omega arith)
                (h (suc i) (omega arith)))
            (subst (λ k. m k ≡ 0) (omega arith) z),
      )
      (ground arith)
