-- ===== src/Fs/State/Memory.antt =====
-- Byte memory, and what fs/state.c and fs/operations.c use of the C library on it: memcpy, memset,
-- strncpy, strcmp and strncmp, and reading and writing an int.
pub mod Bytes
pub mod Compare
use ex.Common.{
  ℕ, zero, suc, ◌+◌, ◌-◌, ◌≤◌, ◌<◌, ◌≢◌, ◌≡◌, refl, Bool, true, false, ◌&&◌, List, [], ◌∷◌, ◌++◌,
  arith, ltb, leb, ◌==◌, if◌then◌else◌, length, get_or, take, replicate, All,
}
use ex.Common.Int.{ℤ, int_bytes, int_of_bytes}

abbrev pub Memory : Type 0
Memory = ℕ → ℕ

-- A C string without its final NUL.
abbrev pub Text : Type 0
Text = List ℕ

abbrev pub IsText : Text → Type 0
IsText = All (λ c. (0 < c) × (c < 256))

-- `memcpy` into memory at `a`
unfoldable pub write_bytes : Memory → ℕ → List ℕ → Memory
write_bytes m a bs p = if leb a p && ltb p (a + length bs) then get_or bs (p - a) 0 else m p

-- `memcpy` out of memory: `n` bytes from `a` on
unfoldable pub read_bytes : Memory → ℕ → ℕ → List ℕ
read_bytes m a zero = []
read_bytes m a (suc n) = m a ∷ read_bytes m (a + 1) n

-- `memset(a, 0, n)`
abbrev pub zero_bytes : Memory → ℕ → ℕ → Memory
zero_bytes m a n = write_bytes m a (replicate n 0)

-- The `n` bytes that `strncpy` writes: the text cut at `n` bytes, or filled up with NULs.
unfoldable pub strncpy_bytes : Text → ℕ → List ℕ
strncpy_bytes s zero = []
strncpy_bytes [] (suc n) = 0 ∷ strncpy_bytes [] n
strncpy_bytes (c ∷ s) (suc n) = c ∷ strncpy_bytes s n

-- `strcmp(a, s) == 0`
unfoldable pub strcmp_eq : Memory → ℕ → Text → Bool
strcmp_eq m a [] = m a == 0
strcmp_eq m a (c ∷ s) = (m a == c) && strcmp_eq m (a + 1) s

-- `strncmp(a, s, n) == 0`
unfoldable pub strncmp_eq : Memory → ℕ → Text → ℕ → Bool
strncmp_eq m a s zero = true
strncmp_eq m a [] (suc n) = m a == 0
strncmp_eq m a (c ∷ s) (suc n) = (m a == c) && strncmp_eq m (a + 1) s n

-- Reading and writing an int.
unfoldable pub load_int : Memory → ℕ → ℤ
unfolding int_of_bytes
load_int m a = int_of_bytes (m a) (m (a + 1)) (m (a + 2)) (m (a + 3))

unfoldable pub store_int : Memory → ℕ → ℤ → Memory
unfolding int_bytes write_bytes
store_int m a z = write_bytes m a (int_bytes z)
