-- ===== src/Fs/Tests/Fresh.antt =====
-- The small file system of Fs/Tests when it is new, and a handle of it that is closed.
use ex.Common.{◌≡◌, refl, some}
use ex.Common.Int.{pos}
use ex.Fs.State.Monad.{Returns}
use ex.Fs.Ops.Mutex.{working}
use ex.Fs.Ops.Open.{tfs_close}
use ex.Fs.Ops.Init.{tfs_init}
use ex.Fs.Safe.Finish.{Finished}
use ex.Fs.Content.Close.{Closed, tfs_close-Closed}
use ex.Fs.View.Fresh.{IsFresh, restart, tfs_init-IsFresh, restart-IsFresh}
use ex.Fs.Tests.{heap, params, usable, unmounted, opened, posix, opened-IsValid}

tfs_init-IsFresh_example :
    Returns (λ r t. (r ≡ pos 0) × IsFresh t) (tfs_init heap (some params) unmounted)
tfs_init-IsFresh_example =
    tfs_init-IsFresh heap params usable (some params) refl refl unmounted refl

restart-IsFresh_example :
    Returns (λ r t. (r.0 ≡ pos 0) × (r.1 ≡ pos 0) × IsFresh t) (restart heap (some params) opened)
restart-IsFresh_example = restart-IsFresh heap params usable (some params) refl refl opened

tfs_close-Closed_example :
    Returns
      (λ r t. Closed opened (pos 0) r t × Finished working t)
      (tfs_close working (pos 0) opened)
tfs_close-Closed_example = tfs_close-Closed posix (pos 0) opened opened-IsValid
