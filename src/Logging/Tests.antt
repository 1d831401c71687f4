-- ===== src/Logging/Tests.antt =====
-- A few uses of the macros of utils/logging.h.
use ex.Common.{◌≡◌, refl, List, [], ◌∷◌, arith}
use ex.Common.Int.{minus_one}
use ex.Fs.State.Memory.{Text}
use ex.Logging.{log_quiet, log_verbose, Log, exited, Place, info, warn, debug, check, snprintf_buf}
use ex.Logging.Levels.{
  Statement, info_call, warn_call, debug_call, check_call, none_left, IsQuieter, Alike, run_all,
  run_all-Alike,
}

abbrev here : Place
here = record { file = b'm' ∷ b'.' ∷ b'c' ∷ []; line = b'7' ∷ []; func = b'f' ∷ [] }

-- `g_level` as it is at the start, and LOG_VERBOSE.
abbrev quiet : Log
quiet = record { g_level = log_quiet; printed = [] }

abbrev verbose : Log
verbose = record { g_level = log_verbose; printed = [] }

quiet-IsQuieter : IsQuieter quiet verbose
quiet-IsQuieter = record { levels = omega arith; texts = none_left }

abbrev uses : List Statement
uses =
    warn_call here (b'w' ∷ [])
    ∷ debug_call here (b'd' ∷ [])
    ∷ check_call here (b'e' ∷ []) minus_one
    ∷ info_call here (b'i' ∷ [])
    ∷ []

-- The failed CHECK ends the program; `[WARN]:  m.c:7 :: f :: w` and the line of DEBUG are printed at
-- LOG_VERBOSE only.
abbrev check_line : Text
check_line =
    b'[' ∷ b'E' ∷ b'R' ∷ b'R' ∷ b'O' ∷ b'R' ∷ b']' ∷ b' ' ∷ b'(' ∷ b'm' ∷ b'.' ∷ b'c' ∷ b':' ∷ b'7'
    ∷ b')' ∷ b' ' ∷ b'-' ∷ b'-' ∷ b' ' ∷ b'e' ∷ b'\n' ∷ []

abbrev warn_line : Text
warn_line =
    b'[' ∷ b'W' ∷ b'A' ∷ b'R' ∷ b'N' ∷ b']' ∷ b':' ∷ b' ' ∷ b' ' ∷ b'm' ∷ b'.' ∷ b'c' ∷ b':' ∷ b'7'
    ∷ b' ' ∷ b':' ∷ b':' ∷ b' ' ∷ b'f' ∷ b' ' ∷ b':' ∷ b':' ∷ b' ' ∷ b'w' ∷ b'\n' ∷ []

abbrev debug_line : Text
debug_line =
    b'[' ∷ b'D' ∷ b'E' ∷ b'B' ∷ b'U' ∷ b'G' ∷ b']' ∷ b':' ∷ b' ' ∷ b'm' ∷ b'.' ∷ b'c' ∷ b':' ∷ b'7'
    ∷ b' ' ∷ b':' ∷ b':' ∷ b' ' ∷ b'f' ∷ b' ' ∷ b':' ∷ b':' ∷ b' ' ∷ b'd' ∷ b'\n' ∷ []

quiet_result :
    run_all uses quiet
    ≡ exited minus_one (record { g_level = log_quiet; printed = check_line ∷ [] })
unfolding info warn debug check snprintf_buf
quiet_result = refl

verbose_result :
    run_all uses verbose
    ≡ exited minus_one
        (record { g_level = log_verbose; printed = check_line ∷ debug_line ∷ warn_line ∷ [] })
unfolding info warn debug check snprintf_buf
verbose_result = refl

run_all-Alike_example : Alike (run_all uses quiet) (run_all uses verbose)
run_all-Alike_example = run_all-Alike uses quiet verbose quiet-IsQuieter
