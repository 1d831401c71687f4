-- ===== src/Fs/State/Memory/Bytes.antt =====
-- Writing bytes: what is written is there, and all else stays.
use ex.Common.{
  ℕ, zero, suc, ◌+◌, ◌-◌, ◌≤◌, ◌<◌, ◌≡◌, ◌⊎◌, refl, List, [], ◌∷◌, arith, length, get_or, ap, ltb,
  leb, true, lt→ltb,
}
use ex.Common.Int.{ℤ, IsInt32, int_bytes, word, word_bytes, int_bytes_lem}
use ex.Fs.State.Memory.{Memory, Text, write_bytes, strncpy_bytes, load_int, store_int}

pub write_bytes-outside :
    (m : Memory) (a : ℕ) (bs : List ℕ) (p : ℕ)
    → (p < a) ⊎ (a + length bs ≤ p)
    → write_bytes m a bs p ≡ m p
unfolding write_bytes
write_bytes-outside m a bs p h = ground arith

pub write_bytes-inside :
    (m : Memory) (a : ℕ) (bs : List ℕ) (i : ℕ)
    → i < length bs
    → write_bytes m a bs (a + i) ≡ get_or bs i 0
unfolding write_bytes
write_bytes-inside m a bs i h =
    let e : a + i - a ≡ i = omega arith in
    let t : ltb (a + i) (a + length bs) ≡ true = lt→ltb _ _ (omega arith) in
    let l : leb a (a + i) ≡ true = ground arith in rw (l, t, e)

pub write_bytes-at :
    (m : Memory) (a : ℕ) (bs : List ℕ) (p i : ℕ)
    → p ≡ a + i
    → i < length bs
    → write_bytes m a bs p ≡ get_or bs i 0
write_bytes-at m a bs p i e h = rw e (write_bytes-inside m a bs i h)

-- Two memories agree on the `n` bytes from `a` on.
abbrev pub Agree : Memory → Memory → ℕ → ℕ → Type 0
Agree m m' a n = (p : ℕ) → a ≤ p → p < a + n → m' p ≡ m p

pub load_int-Agree : (m m' : Memory) (a : ℕ) → Agree m m' a 4 → load_int m' a ≡ load_int m a
unfolding load_int
load_int-Agree m m' a h = rw (
  h a (omega arith) (omega arith),
  h (a + 1) (omega arith) (omega arith),
  h (a + 2) (omega arith) (omega arith),
  h (a + 3) (omega arith) (omega arith),
)

pub length-strncpy_bytes : (s : Text) (n : ℕ) → length (strncpy_bytes s n) ≡ n
unfolding strncpy_bytes
length-strncpy_bytes s zero = refl
length-strncpy_bytes [] (suc n) = ap suc (length-strncpy_bytes [] n)
length-strncpy_bytes (c ∷ s) (suc n) = ap suc (length-strncpy_bytes s n)

pub length-int_bytes : (z : ℤ) → length (int_bytes z) ≡ 4
unfolding int_bytes
length-int_bytes z = refl

pub store_int-outside :
    (m : Memory) (a : ℕ) (z : ℤ) (p : ℕ) → (p < a) ⊎ (a + 4 ≤ p) → store_int m a z p ≡ m p
unfolding store_int
store_int-outside m a z p h = write_bytes-outside m a (int_bytes z) p (rw (length-int_bytes z) h)

store_int-at :
    (m : Memory) (a : ℕ) (z : ℤ) (i p : ℕ)
    → p ≡ a + i
    → i < 4
    → store_int m a z p ≡ get_or (word_bytes (word z)) i 0
unfolding store_int int_bytes
store_int-at m a z i p e lt = write_bytes-at m a (word_bytes (word z)) p i e lt

pub load-store_int : (m : Memory) (a : ℕ) (z : ℤ) → IsInt32 z → load_int (store_int m a z) a ≡ z
unfolding load_int
load-store_int m a z h =
    rw
      (
        store_int-at m a z 0 a (omega arith) (omega arith),
        store_int-at m a z 1 (a + 1) refl (omega arith),
        store_int-at m a z 2 (a + 2) refl (omega arith),
        store_int-at m a z 3 (a + 3) refl (omega arith),
      )
      (int_bytes_lem z h)
