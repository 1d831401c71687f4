-- ===== src/Fs/Tests/History.antt =====
-- The clients of Fs/Tests/Clients: no block is lost, and their history is one of the map.
use ex.Common.{◌≡◌, ◌∷◌, [], refl, arith, some, subst}
use ex.Common.Int.{pos}
use ex.Fs.State.Monad.{Returns-final}
use ex.Fs.Ops.Mutex.{working}
use ex.Fs.Valid.Tight.{IsTight}
use ex.Fs.Safe.Init.{tfs_init-IsTight}
use ex.Fs.View.{view}
use ex.Fs.Trace.{open_call, write_call, Reach, start, next}
use ex.Fs.Trace.Clean.{IsClean, IsLinked, IsNamed}
use ex.Fs.Trace.Behave.{Run}
use ex.Fs.Trace.Runs.{Reach-IsTight, Reach-Run}
use ex.Fs.Tests.{
  path, greeting, mounted, opened, posix, mounted-IsValid, scenario, opened-block_size,
  opened-IsWithin, heap, params, usable, unmounted,
}
use ex.Fs.Tests.Clients.{filled, creation, writing}

mounted-IsTight : IsTight mounted
mounted-IsTight =
    Returns-final unmounted
      (tfs_init-IsTight heap params usable unmounted (some params) refl refl refl)

opened-IsNamed : IsNamed opened 0
unfolding scenario
opened-IsNamed = record { name = b'a' ∷ []; text = omega arith; found = refl }

opened-IsLinked : IsLinked opened (pos 0)
opened-IsLinked h e lt t =
    let z : 0 ≡ h = ground (arith, e) in
    (subst (IsNamed opened) z opened-IsNamed, opened-IsWithin h e)

abbrev clean_path : Reach working IsClean mounted filled
clean_path =
    next (write_call (pos 0) greeting 2) (next (open_call path 1) start (omega arith, tt) creation)
      ((omega arith, omega (arith, opened-block_size)), opened-IsLinked) writing

Reach-IsTight_example : IsTight filled
Reach-IsTight_example = Reach-IsTight posix mounted-IsValid clean_path mounted-IsTight

Reach-Run_example :
    Run mounted.fs_params.block_size
      (view mounted)
      ((write_call (pos 0) greeting 2, pos 2) ∷ (open_call path 1, pos 0) ∷ [])
      (view filled)
Reach-Run_example = Reach-Run posix mounted-IsValid clean_path
