-- ===== src/Fs/Valid/Nodes.antt =====
-- The inodes, blocks and open file entries of fs/state.c stay well-formed when one of them changes.
use native.Mathlib.Decide.{ℕ_discrete}
use ex.Common.{ℕ, ◌<◌, ◌≡◌, ◌≢◌, refl, subst, sym, ap, ◌∙◌, update, update_self, update-ne}
use ex.Common.Int.{pos_part}
use ex.Fs.State.Types.{TfsParams, Inode, AllocationState, free, taken, OpenFileEntry}
use ex.Fs.Valid.{block_no, FileOk, RootOk, InUse, FilesOk, HandleOk, HandlesOk}

-- What a new value `n` of inode `i`, and new states, must satisfy for the files to stay well-formed.
pub record IsUpdate (p : TfsParams) (nodes : ℕ → Inode) (ns bs ns' bs' : ℕ → AllocationState)
    (i : ℕ) (n : Inode) : Type 0 where
  pub file_new : InUse p ns' i → FileOk p n
  pub owned_new : InUse p ns' i → 0 < n.i_size → bs' (block_no n) ≡ taken
  pub stay : (j : ℕ) → j ≢ i → InUse p ns' j → InUse p ns j
  pub keep :
      (j : ℕ) → j ≢ i → InUse p ns j → 0 < (nodes j).i_size → bs' (block_no (nodes j)) ≡ taken
  pub new_apart :
      (j : ℕ)
      → j ≢ i
      → InUse p ns' i
      → InUse p ns j
      → 0 < n.i_size
      → 0 < (nodes j).i_size
      → block_no n ≢ block_no (nodes j)

module _ {nodes : ℕ → Inode} where
  -- Splits on whether an inode is the one that changed.
  update-induct :
      (i : ℕ) (n : Inode) (P : ℕ → Inode → Type 0)
      → P i n
      → ((j : ℕ) → j ≢ i → P j (nodes j))
      → (j : ℕ) → P j (update nodes i n j)
  update-induct i n P new old j = elim (ℕ_discrete j i) [
    | yes q ↦ subst (λ k. P k (update nodes i n k)) (sym q) (rw (update_self nodes i n) new)
    | no ne ↦ rw (update-ne nodes i n j ne) (old j ne)
  ]

module _ {nodes : ℕ → Inode} {ns bs : ℕ → AllocationState} where
  pub RootOk-update :
      {ns' bs' : ℕ → AllocationState} (i : ℕ) (n : Inode)
      → RootOk nodes ns bs
      → i ≢ 0
      → ns' 0 ≡ taken
      → bs' 0 ≡ taken
      → RootOk (update nodes i n) ns' bs'
  RootOk-update i n v h a b = record {
    directory = rw (update-ne nodes i n 0 (λ q. h (sym q))) v.directory;
    block = rw (update-ne nodes i n 0 (λ q. h (sym q))) v.block;
    node_taken = a;
    block_taken = b;
  }

module _ {p : TfsParams} {nodes : ℕ → Inode} {ns bs : ℕ → AllocationState} where
  pub FilesOk-update :
      {ns' bs' : ℕ → AllocationState} {i : ℕ} {n : Inode}
      → FilesOk p nodes ns bs
      → IsUpdate p nodes ns bs ns' bs' i n
      → FilesOk p (update nodes i n) ns' bs'
  FilesOk-update {ns'} {bs'} {i} {n} v u = record {
    file =
        update-induct {nodes = nodes} i n (λ j k. InUse p ns' j → FileOk p k) u.file_new
          (λ j ne in_use. v.file j (u.stay j ne in_use));
    owned =
        update-induct {nodes = nodes} i n
          (λ j k. InUse p ns' j → 0 < k.i_size → bs' (block_no k) ≡ taken) u.owned_new
          (λ j ne in_use size. u.keep j ne (u.stay j ne in_use) size);
    apart = λ a b ua ub sa sb ne.
        update-induct {nodes = nodes} i n
          (λ j k.
            InUse p ns' j
            → 0 < k.i_size
            → (c : ℕ) → InUse p ns' c
            → 0 < (update nodes i n c).i_size
            → j ≢ c
            → block_no k ≢ block_no (update nodes i n c))
          (λ ui si.
            update-induct {nodes = nodes} i n
              (λ c l. InUse p ns' c → 0 < l.i_size → i ≢ c → block_no n ≢ block_no l)
              (λ ui' si' ne'. absurd (ne' refl))
              (λ c ne' uc sc _. u.new_apart c ne' ui (u.stay c ne' uc) si sc))
          (λ j nj uj sj.
            update-induct {nodes = nodes} i n
              (λ c l. InUse p ns' c → 0 < l.i_size → j ≢ c → block_no (nodes j) ≢ block_no l)
              (λ ui si _ q. u.new_apart j nj ui (u.stay j nj uj) si sj (sym q))
              (λ c nc uc sc ne'. v.apart j c (u.stay j nj uj) (u.stay c nc uc) sj sc ne'))
          a ua sa b ub sb ne;
  }

module _ {p : TfsParams} {nodes : ℕ → Inode} {entries : ℕ → OpenFileEntry}
    {states : ℕ → AllocationState} (v : HandlesOk p nodes entries states) where
  pub HandlesOk-update :
      (i : ℕ) (n : Inode) → FileOk p n → HandlesOk p (update nodes i n) entries states
  HandlesOk-update i n ok = record {
    handle = λ h lt t.
        let o = v.handle h lt t in
        record {
          number = o.number;
          below = o.below;
          ne_root = o.ne_root;
          offset_le = o.offset_le;
          file = elim (ℕ_discrete (pos_part (entries h).of_inumber) i) [
            | yes q ↦ rw (q, update_self nodes i n) ok
            | no ne ↦ rw (update-ne nodes i n _ ne) o.file
          ];
        };
  }

  -- An entry is written, and may be taken.
  pub HandlesOk-set :
      (i : ℕ) (e : OpenFileEntry) (st : AllocationState)
      → HandleOk p nodes e
      → HandlesOk p nodes (update entries i e) (update states i st)
  HandlesOk-set i e st ok = record {
    handle = λ h lt t. elim (ℕ_discrete h i) [
      | yes q ↦ rw (q, update_self entries i e) ok
      | no ne ↦
          rw (update-ne entries i e h ne) (v.handle h lt (sym (update-ne states i st h ne) ∙ t))
    ];
  }

  -- The offset of an entry is written.
  pub HandlesOk-entry :
      (i : ℕ) (e : OpenFileEntry)
      → HandleOk p nodes e
      → HandlesOk p nodes (update entries i e) states
  HandlesOk-entry i e ok = record {
    handle = λ h lt t. elim (ℕ_discrete h i) [
      | yes q ↦ rw (q, update_self entries i e) ok
      | no ne ↦ rw (update-ne entries i e h ne) (v.handle h lt t)
    ];
  }

  -- An entry is released.
  pub HandlesOk-release : (i : ℕ) → HandlesOk p nodes entries (update states i free)
  HandlesOk-release i = record {
    handle = λ h lt t. elim (ℕ_discrete h i) [
      | yes q ↦ absurd (cc (update_self states i free, ap (update states i free) q))
      | no ne ↦ v.handle h lt (sym (update-ne states i free h ne) ∙ t)
    ];
  }
