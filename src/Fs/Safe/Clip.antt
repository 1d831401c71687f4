-- ===== src/Fs/Safe/Clip.antt =====
-- How many bytes `tfs_write` and `tfs_read` of fs/operations.c transfer, with the arithmetic of a
-- 64-bit size_t.
use Prim.Native.Nat.{min}
use ex.Common.{ℕ, ◌+◌, ◌-◌, ◌*◌, ◌^◌, ◌<◌, ◌≤◌, ◌≡◌, arith, ltb, Bool-cases, inl, inr, tests}
use ex.Common.Int.{pos, to_ssize}
use ex.Fs.Ops.Transfer.{add_size, sub_size, clip_write, clip_read}

pub add_size_small : (a b : ℕ) → a + b < 2 ^ 64 → add_size a b ≡ a + b
unfolding add_size
add_size_small a b h = omega arith

pub sub_size_small : (a b : ℕ) → b ≤ a → a < 2 ^ 64 → sub_size a b ≡ a - b
unfolding sub_size
sub_size_small a b h l = omega arith

pub to_ssize_small : (n : ℕ) → n < 2 ^ 63 → to_ssize n ≡ pos n
unfolding to_ssize
to_ssize_small n h = ground arith

-- Where the sum does not overflow, a write is cut at the end of the block.
pub clip_write_lem :
    (block_size offset to_write : ℕ)
    → offset ≤ block_size
    → to_write + block_size < 2 ^ 64
    → clip_write block_size offset to_write ≡ min to_write (block_size - offset)
unfolding clip_write
clip_write_lem b o w h l = elim (Bool-cases (ltb b (add_size w o))) [
  | inl e ↦ rw e (omega (tests, e, add_size_small w o, sub_size_small b o))
  | inr e ↦ rw e (ground (arith, add_size_small w o))
]

-- A read from an offset within the file is cut at the end of the file.
pub clip_read_lem :
    (size offset len : ℕ)
    → offset ≤ size
    → size < 2 ^ 64
    → clip_read size offset len ≡ min len (size - offset)
unfolding clip_read
clip_read_lem s o l h b = ground (arith, sub_size_small s o)

-- From an offset behind the end of the file, with offset and length at most 2^63, a read is not cut:
-- the difference wraps round, and `clip_read` is the length that was asked for.
pub clip_read_past_end :
    (size offset len : ℕ)
    → size < offset
    → offset ≤ 2 ^ 63
    → len ≤ 2 ^ 63
    → clip_read size offset len ≡ len
unfolding clip_read sub_size
clip_read_past_end s o l h b c = ground arith

pub mul-add_le : (a b n : ℕ) → a < b → a * n + n ≤ b * n
mul-add_le a b n h = grind arith

pub le_mul : (a n : ℕ) → 0 < a → n ≤ a * n
le_mul a n h = grind arith
