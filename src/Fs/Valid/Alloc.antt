-- ===== src/Fs/Valid/Alloc.antt =====
-- What the allocating loops of fs/state.c return: the first free index, marked as taken, or -1 and
-- the state as it was.
use ex.Common.{ℕ, ◌<◌, ◌≤◌, ◌^◌, ◌≡◌, inl, inr, refl, Bool, true, false, arith, Option-cases}
use ex.Common.Int.{ℤ, pos, minus_one, to_int, to_int_small}
use ex.Common.First.{first_index, IsFirst, first_index-eq_some, first_index-eq_none}
use ex.Fs.State.Types.{AllocationState, free, taken, Fs, is_free}
use ex.Fs.State.Monad.{Out, M, done, and_then}
use ex.Fs.State.Tables.{
  take_first, take_inode, take_block, open_entry, inode_alloc, data_block_alloc,
  add_to_open_file_table,
}

-- The outcomes of a loop that takes the first of `n` indices that passes `test`.
pub data Allocated (n : ℕ) (test : ℕ → Bool) (f : ℕ → Fs → Fs) (s : Fs) : Out ℤ → Type 0 where
  full : ((i : ℕ) → i < n → test i ≡ false) → Allocated n test f s (done minus_one s)
  took : (i : ℕ) → IsFirst test n i → Allocated n test f s (done (pos i) (f i s))

-- To prove something of a loop and what follows it, prove it of both outcomes.
pub Allocated-then :
    {A : Type 0} {n : ℕ} {test : ℕ → Bool} {f : ℕ → Fs → Fs} {s : Fs} {r : Out ℤ} (k : ℤ → M A)
    (Q : Out A → Type 0)
    → Allocated n test f s r
    → (((i : ℕ) → i < n → test i ≡ false) → Q (k minus_one s))
    → ((i : ℕ) → IsFirst test n i → Q (k (pos i) (f i s)))
    → Q (and_then r k)
Allocated-then k Q (full h) a b = a h
Allocated-then k Q (took i h) a b = b i h

take_first-Allocated :
    (n : ℕ) (test : ℕ → Bool) (f : ℕ → Fs → Fs) (s : Fs)
    → n ≤ 2 ^ 31
    → Allocated n test f s (take_first (first_index n test) f s)
take_first-Allocated n test f s h = elim (Option-cases (first_index n test)) [
  | inl e ↦ rw e (full (first_index-eq_none n test e))
  | inr (i, e) ↦
      let first = first_index-eq_some n test e in
      let small : to_int i ≡ pos i = to_int_small i (omega (arith, first.below)) in
      rw (e, small) (took i first)
]

module _ (s : Fs) where
  -- `inode_alloc` takes the first free inode.
  pub inode_alloc-Allocated :
      s.fs_params.max_inode_count ≤ 2 ^ 31
      → Allocated s.fs_params.max_inode_count
          (λ i. is_free (s.freeinode_ts i))
          take_inode
          s
          (inode_alloc s)
  unfolding inode_alloc
  inode_alloc-Allocated h = take_first-Allocated _ (λ i. is_free (s.freeinode_ts i)) take_inode s h

  -- `data_block_alloc` takes the first free block.
  pub data_block_alloc-Allocated :
      s.fs_params.max_block_count ≤ 2 ^ 31
      → Allocated s.fs_params.max_block_count
          (λ i. is_free (s.free_blocks i))
          take_block
          s
          (data_block_alloc s)
  unfolding data_block_alloc
  data_block_alloc-Allocated h =
      take_first-Allocated _ (λ i. is_free (s.free_blocks i)) take_block s h

  -- `add_to_open_file_table` takes the first free entry.
  pub add_to_open_file_table-Allocated :
      (inumber : ℤ) (offset : ℕ)
      → s.fs_params.max_open_files_count ≤ 2 ^ 31
      → Allocated s.fs_params.max_open_files_count
          (λ i. is_free (s.free_open_file_entries i))
          (open_entry inumber offset)
          s
          (add_to_open_file_table inumber offset s)
  unfolding add_to_open_file_table
  add_to_open_file_table-Allocated inumber offset h =
      take_first-Allocated _ (λ i. is_free (s.free_open_file_entries i)) (open_entry inumber offset)
        s h

pub free_of_test : (st : AllocationState) → is_free st ≡ true → st ≡ free
free_of_test free h = refl
free_of_test taken h = cc

pub taken_of_test : (st : AllocationState) → is_free st ≡ false → st ≡ taken
taken_of_test free h = cc
taken_of_test taken h = refl
