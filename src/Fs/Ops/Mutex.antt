-- ===== src/Fs/Ops/Mutex.antt =====
-- fs/operations.c: the calls that take and release `g_library_mutex`, and path names.
use ex.Common.{
  ℕ, ◌≡◌, Bool, true, false, ◌&&◌, Option, none, some, [], ltb, ◌==◌, if◌then◌else◌, length, get_or,
  drop,
}
use ex.Common.Int.{ℤ, pos, minus_one, ◌==ℤ◌}
use ex.Fs.State.Memory.{Text}
use ex.Fs.State.Monad.{M, done, pure, ◌>>=◌}
use ex.Fs.State.Dir.{find_in_dir}

-- What the two calls return.
pub record Pthread : Type 0 where
  pub lock_result : ℤ
  pub unlock_result : ℤ

-- The documented results: 0, or a positive error number.
pub record IsPosix (pt : Pthread) : Type 0 where
  pub lock_ne : (pt.lock_result ==ℤ minus_one) ≡ false
  pub unlock_ne : (pt.unlock_result ==ℤ minus_one) ≡ false

-- The mutex is taken and given back without an error.
abbrev pub working : Pthread
working = record { lock_result = pos 0; unlock_result = pos 0 }

unfoldable pub mutex_lock : Pthread → M ℤ
mutex_lock pt s =
    done pt.lock_result (record s { locked = if pt.lock_result ==ℤ pos 0 then true else s.locked })

unfoldable pub mutex_unlock : Pthread → M ℤ
mutex_unlock pt s =
    done pt.unlock_result
      (record s { locked = if pt.unlock_result ==ℤ pos 0 then false else s.locked })

-- `if (pthread_mutex_unlock(...) == -1) return -1; return v;`
unfoldable pub unlock_return : Pthread → ℤ → M ℤ
unfolding mutex_unlock
unlock_return pt v = do r ← mutex_unlock pt; pure (if r ==ℤ minus_one then minus_one else v)

-- `if (pthread_mutex_lock(...) == -1) return -1;` and what follows it.
unfoldable pub with_lock : Pthread → M ℤ → M ℤ
unfolding mutex_lock
with_lock pt body = do r ← mutex_lock pt; if r ==ℤ minus_one then pure minus_one else body

-- A path name; `none` stands for NULL.
unfoldable pub valid_pathname : Option Text → Bool
valid_pathname none = false
valid_pathname (some name) = ltb 1 (length name) && (get_or name 0 0 == b'/')

-- `name + 1`
abbrev pub skip_slash : Option Text → Text
skip_slash none = []
skip_slash (some name) = drop 1 name

unfoldable pub tfs_lookup : Option Text → ℕ → M ℤ
tfs_lookup name root_inode =
    if valid_pathname name then find_in_dir root_inode (skip_slash name) else pure minus_one
