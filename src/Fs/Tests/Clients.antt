-- ===== src/Fs/Tests/Clients.antt =====
-- Two clients of the small file system of Fs/Tests: one creates a file and writes to it, the other
-- removes it.
use ex.Common.{◌≡◌, refl, arith}
use ex.Common.Int.{pos}
use ex.Fs.State.Types.{Fs}
use ex.Fs.State.Monad.{done, final}
use ex.Fs.Ops.Mutex.{working}
use ex.Fs.Ops.Open.{tfs_open}
use ex.Fs.Ops.Transfer.{tfs_write}
use ex.Fs.Valid.{IsValid}
use ex.Fs.Trace.{open_call, write_call, IsAllowed, Reach, start, next, Reach-IsValid}
use ex.Fs.Tests.{
  path, greeting, mounted, opened, posix, mounted-IsValid, scenario, opened-block_size,
}

abbrev pub filled : Fs
filled = final (tfs_write working (pos 0) greeting 2 opened) opened

pub creation : tfs_open working path 1 mounted ≡ done (pos 0) opened
unfolding scenario
creation = refl

pub writing : tfs_write working (pos 0) greeting 2 opened ≡ done (pos 2) filled
unfolding scenario
writing = refl

filled-Reach : Reach working IsAllowed mounted filled
filled-Reach =
    next (write_call (pos 0) greeting 2) (next (open_call path 1) start (omega arith) creation)
      (omega arith, omega (arith, opened-block_size)) writing

Reach-IsValid_example : IsValid filled
Reach-IsValid_example = Reach-IsValid posix mounted-IsValid filled-Reach
