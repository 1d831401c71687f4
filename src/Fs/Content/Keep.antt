-- ===== src/Fs/Content/Keep.antt =====
-- Files that stay as they are when fs/state.c and fs/operations.c change the directory, an inode of
-- another file, or the tables.
use ex.Common.{ℕ, ◌<◌, ◌≤◌, ◌≡◌, ◌≢◌, refl, inr, arith, [], length}
use ex.Common.Int.{ℤ}
use ex.Fs.State.Types.{Fs, TfsParams}
use ex.Fs.State.Memory.{Memory, Text, read_bytes}
use ex.Fs.State.Dir.{fill_entry, clear_entry}
use ex.Fs.Valid.{IsValid, InUse, block_no, entries_of}
use ex.Fs.Valid.Entries.{fill_entry-outside, clear_entry-outside}
use ex.Fs.Safe.Clip.{le_mul}
use ex.Fs.Safe.Read.{length-read_bytes}
use ex.Fs.Content.{content, start_of}
use ex.Fs.Content.Bytes.{read_bytes-Agree}

pub length-content : (s : Fs) (k : ℕ) → length (content s k) ≡ (s.inode_table k).i_size
length-content s k = length-read_bytes s.fs_data _ (s.inode_table k).i_size

pub content-empty : (s : Fs) (k : ℕ) → (s.inode_table k).i_size ≡ 0 → content s k ≡ []
unfolding read_bytes
content-empty s k e = rw e refl

-- The files in use in `s`, but for `k`, have the same bytes in `t`.
abbrev pub SameOthers : ℕ → Fs → Fs → Type 0
SameOthers k s t = (j : ℕ) → j ≢ k → InUse s.fs_params s.freeinode_ts j → content t j ≡ content s j

abbrev pub SameFiles : Fs → Fs → Type 0
SameFiles s t = (j : ℕ) → InUse s.fs_params s.freeinode_ts j → content t j ≡ content s j

-- The memories agree behind the first block, which is the root directory's.
abbrev pub SameBlocks : TfsParams → Memory → Memory → Type 0
SameBlocks p m m' = (a : ℕ) → p.block_size ≤ a → m' a ≡ m a

pub content-same :
    {s : Fs} (t : Fs) (j : ℕ)
    → IsValid s
    → t.fs_params ≡ s.fs_params
    → SameBlocks s.fs_params s.fs_data t.fs_data
    → t.inode_table j ≡ s.inode_table j
    → InUse s.fs_params s.freeinode_ts j
    → content t j ≡ content s j
content-same {s} t j v params blocks node u =
    rw (params, node)
      (read_bytes-Agree s.fs_data t.fs_data (start_of s j) (s.inode_table j).i_size (λ p l h.
        blocks p (
          omega (
            arith,
            l,
            le_mul (block_no (s.inode_table j)) s.fs_params.block_size
                (omega (arith, (v.files.file j u).ne_root (omega arith))),
          ))))

pub fill_entry-SameBlocks :
    (p : TfsParams) (m : Memory) (e : ℕ) (nm : Text) (z : ℤ)
    → e < entries_of p
    → SameBlocks p m (fill_entry 0 e nm z m)
fill_entry-SameBlocks p m e nm z lt a le = fill_entry-outside m e nm z a (inr (omega arith))

pub clear_entry-SameBlocks :
    (p : TfsParams) (m : Memory) (e : ℕ) → e < entries_of p → SameBlocks p m (clear_entry 0 e m)
clear_entry-SameBlocks p m e lt a le = clear_entry-outside m e a (inr (omega arith))
