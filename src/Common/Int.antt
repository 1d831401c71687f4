-- ===== src/Common/Int.antt =====
-- C's int: integers over the native numbers, the conversions from and to 32 bits, and the four
-- little-endian bytes that an int occupies in memory.
use Prim.Native.Nat.{ℕ, ◌+◌, ◌-◌, ◌*◌, ◌/◌, ◌%◌, ◌^◌, ◌<◌}
use mathlib.Core.Path.{◌≡◌}
use mathlib.Core.Logic.{◌↔◌}
use mathlib.Core.Bool.{Bool, true, false}
use mathlib.Core.List.{List, [], ◌∷◌}
use native.Mathlib.Omega.{arith}
use ex.Common.Tests.{ltb, ◌==◌, if◌then◌else◌}

-- `negsuc n` is -(n + 1).
pub data ℤ : Type 0 where
  pos : ℕ → ℤ
  negsuc : ℕ → ℤ

-- The error code -1.
abbrev pub minus_one : ℤ
minus_one = negsuc 0

abbrev pub pos_part : ℤ → ℕ
pos_part (pos n) = n
pos_part (negsuc n) = 0

infix 50 ◌==ℤ◌
abbrev pub ◌==ℤ◌ : ℤ → ℤ → Bool
pos a ==ℤ pos b = a == b
negsuc a ==ℤ negsuc b = a == b
_ ==ℤ _ = false

-- `z >= 0`
abbrev pub is_nonneg : ℤ → Bool
is_nonneg (pos n) = true
is_nonneg (negsuc n) = false

-- `z >= 0 && z < n`, for an int and a size_t
abbrev pub in_range : ℤ → ℕ → Bool
in_range (pos k) n = ltb k n
in_range (negsuc k) n = false

-- `(int)n` for a size_t n: the low 32 bits, read as two's complement.
unfoldable pub to_int : ℕ → ℤ
to_int n = let r = n % 2 ^ 32 in if ltb r (2 ^ 31) then pos r else negsuc (2 ^ 32 - 1 - r)

-- `(ssize_t)n` for a size_t n below 2^64.
unfoldable pub to_ssize : ℕ → ℤ
to_ssize n = if ltb n (2 ^ 63) then pos n else negsuc (2 ^ 64 - 1 - n)

-- The bit pattern of an int.
unfoldable pub word : ℤ → ℕ
word (pos n) = n % 2 ^ 32
word (negsuc n) = 2 ^ 32 - 1 - n % 2 ^ 32

abbrev pub word_bytes : ℕ → List ℕ
word_bytes w = (w % 256) ∷ (w / 256 % 256) ∷ (w / 65536 % 256) ∷ (w / 16777216 % 256) ∷ []

-- The bytes of an int in memory, least significant first.
unfoldable pub int_bytes : ℤ → List ℕ
unfolding word
int_bytes z = word_bytes (word z)

-- The int that four bytes hold.
unfoldable pub int_of_bytes : ℕ → ℕ → ℕ → ℕ → ℤ
unfolding to_int
int_of_bytes a b c d = to_int (a + 256 * b + 65536 * c + 16777216 * d)

-- The values of a 32-bit int.
abbrev pub IsInt32 : ℤ → Type 0
IsInt32 (pos n) = n < 2 ^ 31
IsInt32 (negsuc n) = n < 2 ^ 31

pub to_int_small : (n : ℕ) → n < 2 ^ 31 → to_int n ≡ pos n
unfolding to_int
to_int_small n h = ground arith

pub to_int-word : (z : ℤ) → IsInt32 z → to_int (word z) ≡ z
unfolding to_int word
to_int-word (pos n) h = ground arith
to_int-word (negsuc n) h = ground arith

word-lt : (z : ℤ) → word z < 2 ^ 32
unfolding word
word-lt (pos n) = omega arith
word-lt (negsuc n) = omega arith

join_bytes :
    (w : ℕ)
    → w < 2 ^ 32
    → w % 256 + 256 * (w / 256 % 256) + 65536 * (w / 65536 % 256) + 16777216 * (w / 16777216 % 256)
      ≡ w
join_bytes w h = omega arith

pub ==ℤ_iff : (a b : ℤ) → ((a ==ℤ b) ≡ true) ↔ (a ≡ b)
==ℤ_iff (pos a) (pos b) = ground arith
==ℤ_iff (negsuc a) (negsuc b) = ground arith
==ℤ_iff (pos a) (negsuc b) = ground arith
==ℤ_iff (negsuc a) (pos b) = ground arith

pub int_bytes_lem :
    (z : ℤ)
    → IsInt32 z
    → int_of_bytes
        (word z % 256)
        (word z / 256 % 256)
        (word z / 65536 % 256)
        (word z / 16777216 % 256)
      ≡ z
unfolding int_of_bytes
int_bytes_lem z h = rw (join_bytes (word z) (word-lt z)) (to_int-word z h)
