-- ===== src/Fs/View.antt =====
-- The file system of fs/ as a map from names to bytes, which forgets inodes, blocks, directory
-- entries and their order; and the steps that its operations may take on that map.
pub mod Lookups
pub mod Refine
pub mod Fresh
use Prim.Native.Nat.{min}
use ex.Common.{ℕ, Bool, true, ◌≡◌, ◌≢◌, ◌-◌, Option, none, some, List, [], take, if◌then◌else◌}
use ex.Common.Int.{ℤ, pos, negsuc, minus_one}
use ex.Fs.State.Types.{Fs}
use ex.Fs.State.Memory.{Text, IsText}
use ex.Fs.State.Monad.{Out, done, stop}
use ex.Fs.State.Dir.{find_in_dir}
use ex.Fs.Ops.Open.{creates, truncates}
use ex.Fs.Content.{content}
use ex.Fs.Content.Bytes.{splice}

abbrev pub Map : Type 0
Map = Text → Option (List ℕ)

-- The bytes of the file that a search has found.
abbrev pub file_of : Out ℤ → Option (List ℕ)
file_of (done (pos k) s) = some (content s k)
file_of (done (negsuc n) s) = none
file_of (stop e) = none

-- The map of a file system: what `find_in_dir` finds in the root directory.
abbrev pub view : Fs → Map
view s nm = file_of (find_in_dir 0 nm s)

-- The maps agree on the C strings.
abbrev pub Unchanged : Map → Map → Type 0
Unchanged m m' = (x : Text) → IsText x → m' x ≡ m x

-- The map `m'` has `f` for the name, and is `m` elsewhere.
pub record IsUpdated (m m' : Map) (nm : Text) (f : Option (List ℕ)) : Type 0 where
  pub at_name : m' nm ≡ f
  pub others : (x : Text) → IsText x → x ≢ nm → m' x ≡ m x

-- What a client asks for, with the name of the file and, for a write, the offset of the handle, the
-- count and the buffer.
pub data Command : Type 0 where
  open_file : Text → ℕ → Command
  unlink_file : Text → Command
  write_file : Text → ℕ → ℕ → List ℕ → Command

-- The specification: the steps that a command may take on a map, with the values it may return, for
-- files of at most `size` bytes.
pub data Step (size : ℕ) (m m' : Map) : Command → ℤ → Type 0 where
  -- A file that exists is opened, or there is no handle for it; in both cases it may be truncated.
  opened :
      {nm : Text} {mode : ℕ} {r : ℤ} (c : List ℕ)
      → m nm ≡ some c
      → IsUpdated m m' nm (some (if truncates mode then [] else c))
      → Step size m m' (open_file nm mode) r
  created :
      {nm : Text} {mode : ℕ} {r : ℤ}
      → m nm ≡ none
      → creates mode ≡ true
      → IsUpdated m m' nm (some [])
      → Step size m m' (open_file nm mode) r
  refused :
      {nm : Text} {mode : ℕ}
      → m nm ≡ none
      → Unchanged m m'
      → Step size m m' (open_file nm mode) minus_one
  unlinked :
      {nm : Text} (c : List ℕ)
      → m nm ≡ some c
      → IsUpdated m m' nm none
      → Step size m m' (unlink_file nm) (pos 0)
  missing : {nm : Text} → m nm ≡ none → Unchanged m m' → Step size m m' (unlink_file nm) minus_one
  written :
      {nm : Text} {o w : ℕ} {buffer : List ℕ} (c : List ℕ)
      → m nm ≡ some c
      → IsUpdated m m' nm (some (splice o (take (min w (size - o)) buffer) c))
      → Step size m m' (write_file nm o w buffer) (pos (min w (size - o)))
  -- The file is empty, and there is no block for it.
  no_block :
      {nm : Text} {o w : ℕ} {buffer : List ℕ}
      → m nm ≡ some []
      → Unchanged m m'
      → Step size m m' (write_file nm o w buffer) minus_one
