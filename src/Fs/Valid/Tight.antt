-- ===== src/Fs/Valid/Tight.antt =====
-- No block of fs/state.c is lost: every block that is taken is the root directory's or some file's.
use native.Mathlib.Decide.{ℕ_discrete}
use ex.Common.{
  ℕ, Bool, ◌<◌, ◌≡◌, ◌≢◌, inl, inr, refl, sym, ap, ◌∙◌, subst, arith, update, update_self,
  update-ne, Bool-cases, ltb,
}
use ex.Fs.State.Types.{TfsParams, Inode, AllocationState, free, taken, Fs}
use ex.Fs.Valid.{block_no, InUse}
use ex.Fs.Valid.Delete.{without_block, deleted}

-- A file in use that has the block `b`.
pub record Owner (p : TfsParams) (nodes : ℕ → Inode) (node_states : ℕ → AllocationState) (b : ℕ)
    : Type 0 where
  pub file : ℕ
  pub in_use : InUse p node_states file
  pub some_bytes : 0 < (nodes file).i_size
  pub number : block_no (nodes file) ≡ b

abbrev pub AllOwned :
    TfsParams → (ℕ → Inode) → (ℕ → AllocationState) → (ℕ → AllocationState) → Type 0
AllOwned p nodes node_states block_states =
    (b : ℕ) → b < p.max_block_count → b ≢ 0 → block_states b ≡ taken → Owner p nodes node_states b

abbrev pub IsTight : Fs → Type 0
IsTight s = AllOwned s.fs_params s.inode_table s.freeinode_ts s.free_blocks

-- The parameters of `t` are those of `s`, and if no block is lost in `s`, none is in `t`.
pub record Lossless (s t : Fs) : Type 0 where
  pub same_params : t.fs_params ≡ s.fs_params
  pub no_leak : IsTight s → IsTight t

-- Only the mutex has changed.
pub Lossless-locked : (s : Fs) (b : Bool) → Lossless s (record s { locked = b })
Lossless-locked s b = record { same_params = refl; no_leak = λ tight. tight }

freed_other : (bs : ℕ → AllocationState) (a b : ℕ) → update bs a free b ≡ taken → b ≢ a
freed_other bs a b h e = cc (h, ap (update bs a free) e, update_self bs a free)

freed_before : (bs : ℕ → AllocationState) (a b : ℕ) → update bs a free b ≡ taken → bs b ≡ taken
freed_before bs a b h = sym (update-ne bs a free b (freed_other bs a b h)) ∙ h

-- Without the block of file `i`, every block that is taken is another file's.
module _ {p : TfsParams} {nodes : ℕ → Inode} {ns bs : ℕ → AllocationState} (i : ℕ)
    (tight : AllOwned p nodes ns bs) (b : ℕ) (lt : b < p.max_block_count) (ne : b ≢ 0)
    (h : without_block (nodes i) bs b ≡ taken) where
  owned_apart : (o : Owner p nodes ns b) × (o.file ≢ i)
  owned_apart = elim (Bool-cases (ltb 0 (nodes i).i_size)) [
    | inl some_bytes ↦
        let h' : update bs (block_no (nodes i)) free b ≡ taken = rw some_bytes at h in
        let o = tight b lt ne (freed_before bs _ b h') in
        (o, λ e. freed_other bs _ b h' (sym o.number ∙ ap (λ j. block_no (nodes j)) e))
    | inr empty ↦
        let h' : bs b ≡ taken = rw empty at h in
        let o = tight b lt ne h' in
        (o, λ e. let z = o.some_bytes in let q = ap (λ j. (nodes j).i_size) e in ground arith)
  ]

pub deleted-IsTight : (i : ℕ) (s : Fs) → IsTight s → IsTight (deleted i s)
deleted-IsTight i s tight b lt ne h =
    let (o, other) = owned_apart i tight b lt ne h in
    record {
      file = o.file;
      in_use = record {
        ne_root = o.in_use.ne_root;
        below = o.in_use.below;
        is_taken = update-ne s.freeinode_ts i free o.file other ∙ o.in_use.is_taken;
      };
      some_bytes = o.some_bytes;
      number = o.number;
    }

-- A truncation: the block is freed and the size becomes 0.
pub truncated-AllOwned :
    {p : TfsParams} {nodes nodes' : ℕ → Inode} {ns bs : ℕ → AllocationState} (i : ℕ)
    → ((j : ℕ) → j ≢ i → nodes' j ≡ nodes j)
    → AllOwned p nodes ns bs
    → AllOwned p nodes' ns (without_block (nodes i) bs)
truncated-AllOwned {nodes' = nodes'} i others tight b lt ne h =
    let (o, other) = owned_apart i tight b lt ne h in
    let e = others o.file other in
    record {
      file = o.file;
      in_use = o.in_use;
      some_bytes = rw e o.some_bytes;
      number = rw e o.number;
    }

-- A new file in a free inode owns nothing yet.
pub created-AllOwned :
    {p : TfsParams} {nodes : ℕ → Inode} {ns bs : ℕ → AllocationState} (i : ℕ) (n : Inode)
    → ns i ≡ free
    → AllOwned p nodes ns bs
    → AllOwned p (update nodes i n) (update ns i taken) bs
created-AllOwned {nodes = nodes} {ns = ns} i n was_free tight b lt ne h =
    let o = tight b lt ne h in
    let other : o.file ≢ i = λ e. cc (was_free, o.in_use.is_taken, ap ns e) in
    let e = update-ne nodes i n o.file other in
    record {
      file = o.file;
      in_use = record {
        ne_root = o.in_use.ne_root;
        below = o.in_use.below;
        is_taken = update-ne ns i taken o.file other ∙ o.in_use.is_taken;
      };
      some_bytes = rw e o.some_bytes;
      number = rw e o.number;
    }

-- The file `k` has got bytes in block `b`, which is its old one or was free.
pub owned-AllOwned :
    {p : TfsParams} {nodes nodes' : ℕ → Inode} {ns bs bs' : ℕ → AllocationState} (k b : ℕ)
    → InUse p ns k
    → 0 < (nodes' k).i_size
    → block_no (nodes' k) ≡ b
    → (0 < (nodes k).i_size → block_no (nodes k) ≡ b)
    → ((j : ℕ) → j ≢ k → nodes' j ≡ nodes j)
    → ((a : ℕ) → a ≢ b → bs' a ≡ taken → bs a ≡ taken)
    → AllOwned p nodes ns bs
    → AllOwned p nodes' ns bs'
owned-AllOwned {nodes = nodes} k b u some_bytes number old others blocks tight a lt ne h =
    elim (ℕ_discrete a b) [
      | yes e ↦ record { file = k; in_use = u; some_bytes = some_bytes; number = number ∙ sym e }
      | no other ↦
          let o = tight a lt ne (blocks a other h) in
          let apart : o.file ≢ k = λ e. other (
            sym o.number
            ∙ ap (λ j. block_no (nodes j)) e
            ∙ old (subst (λ j. 0 < (nodes j).i_size) e o.some_bytes)) in
          let same = others o.file apart in
          record {
            file = o.file;
            in_use = o.in_use;
            some_bytes = rw same o.some_bytes;
            number = rw same o.number;
          }
    ]

-- The inodes and the blocks are the same.
pub same-IsTight :
    (s t : Fs)
    → t.fs_params ≡ s.fs_params
    → t.inode_table ≡ s.inode_table
    → t.freeinode_ts ≡ s.freeinode_ts
    → t.free_blocks ≡ s.free_blocks
    → IsTight s
    → IsTight t
same-IsTight s t params nodes inodes blocks tight = rw (params, nodes, inodes, blocks) tight
