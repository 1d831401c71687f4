-- ===== src/Fs/Valid/Create.antt =====
-- `inode_create(T_FILE)` of fs/state.c in a well-formed state.
use ex.Common.{
  ℕ, ◌<◌, ◌≤◌, ◌^◌, ◌≡◌, ◌≢◌, refl, subst, sym, ◌∙◌, ap, fun_ext, arith, Bool, false, update,
  update_self, update-ne,
}
use ex.Common.Int.{ℤ, pos, pos_part, minus_one}
use ex.Common.First.{IsFirst}
use ex.Fs.State.Types.{Inode, t_file, free, taken, Fs, is_free}
use ex.Fs.State.Monad.{Out, done}
use ex.Fs.State.Tables.{inode_create, create_node, create_file, take_inode, set_inode}
use ex.Fs.Valid.{FileOk, InUse, IsValid, entry_inumber, entries_of}
use ex.Fs.Valid.Alloc.{Allocated-then, inode_alloc-Allocated, free_of_test}
use ex.Fs.Valid.Nodes.{FilesOk-update, RootOk-update, HandlesOk-update}
use ex.Fs.Valid.Dir.{DirOk-take}

-- A file of no bytes and without a block.
abbrev pub empty_file : Inode
empty_file = record { i_node_type = t_file; i_size = 0; i_data_block = minus_one }

abbrev pub created : ℕ → Fs → Fs
created i s = record s {
  inode_table = update s.inode_table i empty_file;
  freeinode_ts = update s.freeinode_ts i taken;
}

abbrev pub free_inode : Fs → ℕ → Bool
free_inode s i = is_free (s.freeinode_ts i)

-- Either no inode is free and nothing changes, or the first free one becomes an empty file.
pub data Created (s : Fs) : Out ℤ → Type 0 where
  all_taken :
      ((i : ℕ) → i < s.fs_params.max_inode_count → free_inode s i ≡ false)
      → Created s (done minus_one s)
  made :
      (i : ℕ)
      → IsFirst (free_inode s) s.fs_params.max_inode_count i
      → Created s (done (pos i) (created i s))

update-update {ℓ} :
    {A : Type ℓ} (f : ℕ → A) (i : ℕ) (a b : A) → update (update f i a) i b ≡ update f i b
update-update f i a b = fun_ext (λ j. ground arith)

with_nodes : Fs → (ℕ → Inode) → Fs
with_nodes s nodes = record s { inode_table = nodes }

-- Two assignments to one inode.
pub set_inode-set_inode :
    (s : Fs) (i : ℕ) (f g : Inode → Inode)
    → set_inode i g (set_inode i f s) ≡ set_inode i (λ n. g (f n)) s
unfolding with_nodes
set_inode-set_inode s i f g =
    let a : Inode = f (s.inode_table i) in
    ap (with_nodes s) (
      ap (λ (n : Inode). update (update s.inode_table i a) i (g n)) (update_self s.inode_table i a)
      ∙ update-update s.inode_table i a (g a))

-- `inode_create` of a file.
pub inode_create-Created :
    (s : Fs) → s.fs_params.max_inode_count ≤ 2 ^ 31 → Created s (inode_create t_file s)
unfolding inode_create create_node create_file with_nodes
inode_create-Created s h =
    Allocated-then _ (Created s) (inode_alloc-Allocated s h) all_taken (λ i first.
      subst (λ t. Created s (done (pos i) t))
        (sym (
          set_inode-set_inode (take_inode i s) i (λ n. record n { i_node_type = t_file })
            (λ n. record n { i_size = 0; i_data_block = minus_one })))
        (made i first))

module _ {s : Fs} {i : ℕ} (v : IsValid s)
    (first : IsFirst (free_inode s) s.fs_params.max_inode_count i) where
  was_free : s.freeinode_ts i ≡ free
  was_free = free_of_test _ first.passes

  pub first-ne_root : i ≢ 0
  first-ne_root q = cc (v.root.node_taken, was_free, ap s.freeinode_ts q)

  -- The new inode is in use.
  pub created-InUse : InUse s.fs_params (created i s).freeinode_ts i
  created-InUse = record {
    ne_root = first-ne_root;
    below = first.below;
    is_taken = update_self s.freeinode_ts i taken;
  }

  -- No directory entry refers to it.
  pub created-unnamed : (e : ℕ) → e < entries_of s.fs_params → entry_inumber s.fs_data e ≢ pos i
  created-unnamed e lt q =
      let o = v.dir.entry e lt (λ r. absurd (cc (q, r))) in
      let u : s.freeinode_ts (pos_part (entry_inumber s.fs_data e)) ≡ taken = o.in_use.is_taken in
      let w : s.freeinode_ts i ≡ taken = subst (λ z. s.freeinode_ts (pos_part z) ≡ taken) q u in
      cc (w, was_free)

  empty-FileOk : FileOk s.fs_params empty_file
  empty-FileOk = record {
    is_file = refl;
    size_le = omega arith;
    number = λ h. absurd (omega arith);
    below = λ h. absurd (omega arith);
    ne_root = λ h. absurd (omega arith);
  }

  untaken :
      (j : ℕ)
      → j ≢ i
      → InUse s.fs_params (created i s).freeinode_ts j
      → InUse s.fs_params s.freeinode_ts j
  untaken j ne u = record {
    ne_root = u.ne_root;
    below = u.below;
    is_taken = sym (update-ne s.freeinode_ts i taken j ne) ∙ u.is_taken;
  }

  -- Creating a file keeps the state well-formed.
  pub created-IsValid : IsValid (created i s)
  created-IsValid = record {
    params = v.params;
    root =
        RootOk-update i empty_file v.root first-ne_root
          (update-ne s.freeinode_ts i taken 0 (λ q. first-ne_root (sym q)) ∙ v.root.node_taken)
          v.root.block_taken;
    files = FilesOk-update v.files (record {
      file_new = λ _. empty-FileOk;
      owned_new = λ _ h. absurd (omega arith);
      stay = untaken;
      keep = λ j ne u h. v.files.owned j u h;
      new_apart = λ j ne _ u h _. absurd (omega arith);
    });
    handles = HandlesOk-update v.handles i empty_file empty-FileOk;
    dir = DirOk-take v.dir i;
  }
