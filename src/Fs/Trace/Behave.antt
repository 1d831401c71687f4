-- ===== src/Fs/Trace/Behave.antt =====
-- What the calls of fs/operations.c may do to a map from names to bytes.
use ex.Common.{ℕ, ◌≡◌, true, false, Option, some, List, [], ◌∷◌, length, take, drop}
use ex.Common.Int.{ℤ, pos, minus_one}
use ex.Fs.State.Memory.{Text}
use ex.Fs.Ops.Mutex.{valid_pathname, skip_slash}
use ex.Fs.View.{Map, Unchanged, Step, open_file, unlink_file, write_file}
use ex.Fs.Trace.{Call, open_call, close_call, write_call, read_call, unlink_call}

-- The calls that may be refused as such: a path name that is not valid, a handle that is not open.
abbrev pub MayReject : Call → Type 0
MayReject (open_call name mode) = valid_pathname name ≡ false
MayReject (close_call fhandle) = Unit
MayReject (write_call fhandle buffer to_write) = Unit
MayReject (read_call fhandle len) = Unit
MayReject (unlink_call target) = valid_pathname target ≡ false

-- What a call that returns `r` may do to a map, for files of at most `size` bytes. A write or a read
-- is of some name, at some offset.
pub data Does (size : ℕ) (m m' : Map) : Call → ℤ → Type 0 where
  opens :
      {name : Option Text} {mode : ℕ} {r : ℤ}
      → valid_pathname name ≡ true
      → Step size m m' (open_file (skip_slash name) mode) r
      → Does size m m' (open_call name mode) r
  unlinks :
      {target : Option Text} {r : ℤ}
      → valid_pathname target ≡ true
      → Step size m m' (unlink_file (skip_slash target)) r
      → Does size m m' (unlink_call target) r
  writes :
      {fhandle : ℤ} {buffer : List ℕ} {w : ℕ} {r : ℤ} (nm : Text) (o : ℕ)
      → Step size m m' (write_file nm o w buffer) r
      → Does size m m' (write_call fhandle buffer w) r
  reads :
      {fhandle r : ℤ} {len : ℕ} (nm : Text) (o : ℕ) (c : List ℕ)
      → m nm ≡ some c
      → r ≡ pos (length (take len (drop o c)))
      → Unchanged m m'
      → Does size m m' (read_call fhandle len) r
  closes : {fhandle r : ℤ} → Unchanged m m' → Does size m m' (close_call fhandle) r
  rejects : {c : Call} {r : ℤ} → MayReject c → r ≡ minus_one → Unchanged m m' → Does size m m' c r

-- The maps that a history of calls and values, the last one first, leads to from `m`.
pub data Run (size : ℕ) (m : Map) : List (Call × ℤ) → Map → Type 0 where
  nothing : Run size m [] m
  later :
      {m' m'' : Map} {c : Call} {r : ℤ} {past : List (Call × ℤ)}
      → Run size m past m'
      → Does size m' m'' c r
      → Run size m ((c, r) ∷ past) m''
