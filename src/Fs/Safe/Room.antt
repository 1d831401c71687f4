-- ===== src/Fs/Safe/Room.antt =====
-- Blocks that `tfs_write` of fs/operations.c may write to: a file's own, or one that was free.
use ex.Common.{ℕ, ◌<◌, ◌≡◌, ◌≢◌, refl, sym, ◌∙◌, ap, arith, update, update_self, update-ne}
use ex.Common.Int.{pos}
use ex.Common.First.{IsFirst}
use ex.Fs.State.Types.{Fs, Inode, taken, free, AllocationState, is_free}
use ex.Fs.State.Tables.{take_block, set_inode}
use ex.Fs.Valid.{IsValid, FileOk, block_no}
use ex.Fs.Valid.Alloc.{free_of_test}
use ex.Fs.Valid.Nodes.{FilesOk-update, RootOk-update, HandlesOk-update}
use ex.Fs.Safe.Block.{CanHold}

-- The state after an empty file has got the block `b`.
abbrev pub with_block : ℕ → ℕ → Fs → Fs
with_block k b s = set_inode k (λ n. record n { i_data_block = pos b }) (take_block b s)

keep_taken : (bs : ℕ → AllocationState) (b j : ℕ) → bs j ≡ taken → update bs b taken j ≡ taken
keep_taken bs b j h = ground arith

-- An open file that is not empty can hold more bytes in its block.
pub handle-CanHold :
    {s : Fs} (k : ℕ)
    → IsValid s
    → FileOk s.fs_params (s.inode_table k)
    → k ≢ 0
    → 0 < (s.inode_table k).i_size
    → CanHold s k (block_no (s.inode_table k))
handle-CanHold k v f ne p = record {
  number = f.number p;
  below = f.below p;
  ne_root = f.ne_root p;
  is_file = f.is_file;
  size_le = f.size_le;
  inode_ne_root = ne;
  is_taken = λ u. v.files.owned k u p;
  apart = λ u j nj uj pj. v.files.apart k j u uj p pj (λ q. nj (sym q));
}

module _ {s : Fs} {k b : ℕ} (v : IsValid s) (f : FileOk s.fs_params (s.inode_table k)) (ne : k ≢ 0)
    (empty : (s.inode_table k).i_size ≡ 0)
    (first : IsFirst (λ i. is_free (s.free_blocks i)) s.fs_params.max_block_count b) where
  was_free : s.free_blocks b ≡ free
  was_free = free_of_test _ first.passes

  new_node : Inode
  new_node = record (s.inode_table k) { i_data_block = pos b }

  new_node-FileOk : FileOk s.fs_params new_node
  unfolding new_node
  new_node-FileOk = record {
    is_file = f.is_file;
    size_le = f.size_le;
    number = λ h. refl;
    below = λ h. absurd (omega arith);
    ne_root = λ h. absurd (omega arith);
  }

  pub with_block-IsValid : IsValid (with_block k b s)
  unfolding new_node
  with_block-IsValid = record {
    params = v.params;
    root =
        RootOk-update k new_node v.root ne v.root.node_taken
          (keep_taken s.free_blocks b 0 v.root.block_taken);
    files = FilesOk-update v.files (record {
      file_new = λ _. new_node-FileOk;
      owned_new = λ _ h. absurd (omega arith);
      stay = λ j nj u. u;
      keep = λ j nj u p. keep_taken s.free_blocks b _ (v.files.owned j u p);
      new_apart = λ j nj _ u h _. absurd (omega arith);
    });
    handles = HandlesOk-update v.handles k new_node new_node-FileOk;
    dir = v.dir;
  }

  pub with_block-CanHold : CanHold (with_block k b s) k b
  with_block-CanHold = record {
    number = ap (λ (n : Inode). n.i_data_block) at_k;
    below = first.below;
    ne_root = λ q. cc (was_free, v.root.block_taken, ap s.free_blocks q);
    is_file = ap (λ (n : Inode). n.i_node_type) at_k ∙ f.is_file;
    size_le = rw at_k f.size_le;
    inode_ne_root = ne;
    is_taken = λ u. update_self s.free_blocks b taken;
    apart = λ u j nj uj pj q.
        let e =
          update-ne s.inode_table k (record (s.inode_table k) { i_data_block = pos b }) j nj in
        let pj' : 0 < (s.inode_table j).i_size = rw e at pj in
        let q' : b ≡ block_no (s.inode_table j) = rw e at q in
        cc (was_free, v.files.owned j uj pj', ap s.free_blocks q');
  }
    where
      at_k :
          update s.inode_table k (record (s.inode_table k) { i_data_block = pos b }) k
          ≡ record (s.inode_table k) { i_data_block = pos b }
      at_k = update_self s.inode_table k _
