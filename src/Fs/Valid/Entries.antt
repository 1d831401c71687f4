-- ===== src/Fs/Valid/Entries.antt =====
-- The bytes of a directory after an entry was filled or cleared by fs/state.c.
use ex.Common.{
  ℕ, ◌+◌, ◌≤◌, ◌<◌, ◌≡◌, ◌≢◌, ◌⊎◌, inl, inr, ◌∙◌, true, arith, [], ◌∷◌, length, get_or, replicate,
}
use native.Mathlib.Decide.{dec_lt}
use ex.Common.Int.{ℤ, IsInt32, minus_one}
use ex.Fs.State.Types.{dir_entry_size, max_file_name}
use ex.Fs.State.Memory.{Memory, Text, strncpy_bytes, strncmp_eq, store_int}
use ex.Fs.State.Memory.Bytes.{
  write_bytes-outside, write_bytes-inside, write_bytes-at, Agree, load_int-Agree,
  length-strncpy_bytes, store_int-outside, load-store_int,
}
use ex.Fs.State.Memory.Compare.{strncmp_eq-Agree, strncmp_eq_copied}
use ex.Fs.State.Dir.{d_name, d_inumber, clear_entry, fill_entry, is_named}
use ex.Fs.Valid.{entry_inumber}

-- The two memories agree on the bytes of entry `e`.
abbrev pub SameEntry : Memory → Memory → ℕ → Type 0
SameEntry m m' e = Agree m m' (d_name 0 e) dir_entry_size

module _ (m m' : Memory) (e : ℕ) (same : SameEntry m m' e) where
  pub entry_inumber-same : entry_inumber m' e ≡ entry_inumber m e
  entry_inumber-same =
      load_int-Agree m m' (d_inumber 0 e) (λ p l u. same p (omega arith) (omega arith))

  pub is_named-same : (s : Text) → is_named 0 s m' e ≡ is_named 0 s m e
  is_named-same s = rw (
    entry_inumber-same,
    strncmp_eq-Agree m m' (d_name 0 e) s max_file_name
        (λ p l u. same p (omega arith) (omega arith)),
  )

  pub byte-same : (i : ℕ) → i < 44 → m' (d_name 0 e + i) ≡ m (d_name 0 e + i)
  byte-same i lt = same (d_name 0 e + i) (omega arith) (omega arith)

-- What is known of a memory `m'` in which entry `i` of `m` was rewritten.
pub record Rewritten (m m' : Memory) (i : ℕ) (z : ℤ) : Type 0 where
  pub number : entry_inumber m' i ≡ z
  pub others : (e : ℕ) → e ≢ i → SameEntry m m' e

module _ (m : Memory) (i : ℕ) (nm : Text) (z : ℤ) where
  pub fill_entry-outside :
      (p : ℕ) → (p < d_name 0 i) ⊎ (d_name 0 i + 44 ≤ p) → fill_entry 0 i nm z m p ≡ m p
  unfolding fill_entry
  fill_entry-outside p h = rw (
    write_bytes-outside _ (d_name 0 i + 39) (0 ∷ []) p (omega arith),
    write_bytes-outside _ (d_name 0 i) (strncpy_bytes nm 39) p
        (omega (arith, length-strncpy_bytes nm 39)),
    store_int-outside m (d_inumber 0 i) z p (omega arith),
  )

  fill_entry-number : IsInt32 z → entry_inumber (fill_entry 0 i nm z m) i ≡ z
  unfolding fill_entry
  fill_entry-number h =
      load_int-Agree (store_int m (d_inumber 0 i) z) _ (d_inumber 0 i) (λ p l u. rw (
        write_bytes-outside _ (d_name 0 i + 39) (0 ∷ []) p (omega arith),
        write_bytes-outside _ (d_name 0 i) (strncpy_bytes nm 39) p
            (omega (arith, length-strncpy_bytes nm 39)),
      ))
      ∙ load-store_int m (d_inumber 0 i) z h

  pub fill_entry-Rewritten : IsInt32 z → Rewritten m (fill_entry 0 i nm z m) i z
  fill_entry-Rewritten h = record {
    number = fill_entry-number h;
    others = λ e ne p l u.
        fill_entry-outside p
          (elim (dec_lt e i) [ yes lt ↦ inl (omega arith) | no ge ↦ inr (omega arith) ]);
  }

  pub fill_entry-ends : fill_entry 0 i nm z m (d_name 0 i + 39) ≡ 0
  unfolding fill_entry
  fill_entry-ends =
      write_bytes-at _ (d_name 0 i + 39) (0 ∷ []) (d_name 0 i + 39) 0 (omega arith) (omega arith)

  fill_entry-name :
      (k : ℕ) → k < 39 → fill_entry 0 i nm z m (d_name 0 i + k) ≡ get_or (strncpy_bytes nm 39) k 0
  unfolding fill_entry
  fill_entry-name k lt =
      write_bytes-outside _ (d_name 0 i + 39) (0 ∷ []) (d_name 0 i + k) (inl (omega arith))
      ∙ write_bytes-inside _ (d_name 0 i) (strncpy_bytes nm 39) k
          (omega (arith, length-strncpy_bytes nm 39))

  pub fill_entry-named :
      length nm ≤ 39 → strncmp_eq (fill_entry 0 i nm z m) (d_name 0 i) nm max_file_name ≡ true
  fill_entry-named h =
      strncmp_eq_copied (fill_entry 0 i nm z m) (d_name 0 i) nm 39 h fill_entry-name fill_entry-ends

module _ (m : Memory) (i : ℕ) where
  pub clear_entry-outside :
      (p : ℕ) → (p < d_name 0 i) ⊎ (d_name 0 i + 44 ≤ p) → clear_entry 0 i m p ≡ m p
  unfolding clear_entry
  clear_entry-outside p h = rw (
    write_bytes-outside _ (d_name 0 i) (replicate 40 0) p (omega arith),
    store_int-outside m (d_inumber 0 i) minus_one p (omega arith),
  )

  pub clear_entry-Rewritten : Rewritten m (clear_entry 0 i m) i minus_one
  unfolding clear_entry
  clear_entry-Rewritten = record {
    number =
        load_int-Agree (store_int m (d_inumber 0 i) minus_one) _ (d_inumber 0 i)
          (λ p l u. write_bytes-outside _ (d_name 0 i) (replicate 40 0) p (omega arith))
        ∙ load-store_int m (d_inumber 0 i) minus_one (omega arith);
    others = λ e ne p l u.
        clear_entry-outside p
          (elim (dec_lt e i) [ yes lt ↦ inl (omega arith) | no ge ↦ inr (omega arith) ]);
  }

  pub clear_entry-name : clear_entry 0 i m (d_name 0 i) ≡ 0
  unfolding clear_entry
  clear_entry-name =
      write_bytes-at _ (d_name 0 i) (replicate 40 0) (d_name 0 i) 0 (omega arith) (omega arith)
