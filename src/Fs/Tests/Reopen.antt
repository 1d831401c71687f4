-- ===== src/Fs/Tests/Reopen.antt =====
-- A file of the small file system of Fs/Tests that is created, written, closed and opened again.
use ex.Common.{◌≡◌, ◌∷◌, [], refl, arith}
use ex.Common.Int.{pos}
use ex.Fs.State.Monad.{Returns, done, stop, Out}
use ex.Fs.Ops.Mutex.{working}
use ex.Fs.Names.Reopen.{Report, no_file, read_back, keep_bytes, IsKept, keep_bytes-IsKept}
use ex.Fs.Tests.{path, greeting, mounted, posix, mounted-IsValid, scenario}
use ex.Fs.Tests.Files.{path-valid}

outcome : Out Report → Report
outcome (done a s) = a
outcome (stop e) = no_file

run_keep_bytes :
    outcome (keep_bytes working path 3 greeting 2 10 mounted)
    ≡ read_back (pos 2) (pos 0) (pos 0) (pos 2) greeting
unfolding scenario outcome
run_keep_bytes = refl

mounted-block_size : mounted.fs_params.block_size ≡ 132
unfolding scenario
mounted-block_size = refl

keep_bytes-IsKept_example :
    Returns
      (λ a z. IsKept mounted (b'a' ∷ []) 3 2 10 greeting a)
      (keep_bytes working path 3 greeting 2 10 mounted)
keep_bytes-IsKept_example =
    keep_bytes-IsKept posix path 3 2 10 greeting mounted mounted-IsValid (omega arith) path-valid
      refl (omega arith) (omega (arith, mounted-block_size))
