-- ===== src/Logging.antt =====
-- projeto-so-2022-23/utils/logging.c, logging.h and betterassert.h: the macros that print to stderr,
-- some of which end the program. What snprintf makes of a format and its arguments, before it is cut
-- to the buffer, is an argument, and so is what strerror says of errno.
pub mod Levels
mod Tests
use ex.Common.{ℕ, ◌-◌, Bool, true, false, ◌||◌, List, [], ◌∷◌, ◌++◌, take, if◌then◌else◌}
use ex.Common.Int.{ℤ, pos, minus_one, ◌==ℤ◌}
use ex.Fs.State.Memory.{Text}

-- `log_level_t`
pub data Level : Type 0 where
  log_quiet : Level
  log_normal : Level
  log_verbose : Level

-- `g_level`, and what has been printed to stderr: a text for each call of fprintf, the last one first.
pub record Log : Type 0 where
  pub g_level : Level
  pub printed : List Text

-- The macro goes on, or the program has ended with a status.
pub data Ran (A : Type 0) : Type 0 where
  after : A → Log → Ran A
  exited : ℤ → Log → Ran A

-- `__FILE__`, `__LINE__` in decimals, and `__func__`
pub record Place : Type 0 where
  pub file : Text
  pub line : Text
  pub func : Text

abbrev pub exit_failure : ℤ
exit_failure = pos 1

-- `sizeof(buf)`
abbrev pub buffer_size : ℕ
buffer_size = 2048

-- `snprintf(buf, 2048, ...)`
unfoldable pub snprintf_buf : Text → Text
snprintf_buf formatted = take (buffer_size - 1) formatted

unfoldable pub set_log_level : Level → Log → Log
set_log_level level s = record s { g_level = level }

abbrev fprintf : Text → Log → Log
fprintf text s = record s { printed = text ∷ s.printed }

-- `" :: %s"`
abbrev field : Text → Text → Text
field text rest = b' ' ∷ b':' ∷ b':' ∷ b' ' ∷ text ++ rest

-- `"%s:%d :: %s"`
abbrev position : Place → Text → Text
position here rest = here.file ++ b':' ∷ here.line ++ field here.func rest

abbrev newline : Text
newline = b'\n' ∷ []

unfoldable pub info : Place → Text → Log → Ran (Unit {0})
unfolding snprintf_buf
info here formatted s = after tt (
    fprintf
      (b'['
        ∷ b'I'
        ∷ b'N'
        ∷ b'F'
        ∷ b'O'
        ∷ b']'
        ∷ b':'
        ∷ b' '
        ∷ b' '
        ∷ position here (field (snprintf_buf formatted) newline))
      s)

unfoldable pub error : Place → Text → Text → Log → Ran (Unit {0})
unfolding snprintf_buf
error here strerror formatted s = exited exit_failure (
    fprintf
      (b'['
        ∷ b'E'
        ∷ b'R'
        ∷ b'R'
        ∷ b'O'
        ∷ b'R'
        ∷ b']'
        ∷ b':'
        ∷ b' '
        ∷ b' '
        ∷ position here (field strerror (field (snprintf_buf formatted) newline)))
      s)

unfoldable pub panic : Place → Text → Log → Ran (Unit {0})
unfolding snprintf_buf
panic here formatted s = exited exit_failure (
    fprintf
      (b'['
        ∷ b'P'
        ∷ b'A'
        ∷ b'N'
        ∷ b'I'
        ∷ b'C'
        ∷ b']'
        ∷ b':'
        ∷ b' '
        ∷ position here (field (snprintf_buf formatted) newline))
      s)

-- `g_level == LOG_NORMAL`
abbrev pub is_normal : Level → Bool
is_normal log_normal = true
is_normal _ = false

-- `g_level == LOG_VERBOSE`
abbrev pub is_verbose : Level → Bool
is_verbose log_verbose = true
is_verbose _ = false

unfoldable pub warn : Place → Text → Log → Ran (Unit {0})
unfolding snprintf_buf
warn here formatted s =
    if is_normal s.g_level || is_verbose s.g_level
    then after tt (
        fprintf
          (b'['
            ∷ b'W'
            ∷ b'A'
            ∷ b'R'
            ∷ b'N'
            ∷ b']'
            ∷ b':'
            ∷ b' '
            ∷ b' '
            ∷ position here (field (snprintf_buf formatted) newline))
          s)
    else after tt s

unfoldable pub log : Place → Text → Log → Ran (Unit {0})
unfolding snprintf_buf
log here formatted s =
    if is_normal s.g_level || is_verbose s.g_level
    then after tt (
        fprintf
          (b'['
            ∷ b'L'
            ∷ b'O'
            ∷ b'G'
            ∷ b']'
            ∷ b':'
            ∷ b' '
            ∷ b' '
            ∷ b' '
            ∷ position here (field (snprintf_buf formatted) newline))
          s)
    else after tt s

unfoldable pub debug : Place → Text → Log → Ran (Unit {0})
unfolding snprintf_buf
debug here formatted s =
    if is_verbose s.g_level
    then after tt (
        fprintf
          (b'['
            ∷ b'D'
            ∷ b'E'
            ∷ b'B'
            ∷ b'U'
            ∷ b'G'
            ∷ b']'
            ∷ b':'
            ∷ b' '
            ∷ position here (field (snprintf_buf formatted) newline))
          s)
    else after tt s

-- `CHECK(X)`, of the value of X.
unfoldable pub check : Place → Text → ℤ → Log → Ran ℤ
check here strerror val s =
    if val ==ℤ minus_one
    then exited minus_one (
        fprintf
          (b'[' ∷ b'E' ∷ b'R' ∷ b'R' ∷ b'O' ∷ b'R' ∷ b']' ∷ b' ' ∷ b'(' ∷ here.file
            ++ b':' ∷ here.line
            ++ b')' ∷ b' ' ∷ b'-' ∷ b'-' ∷ b' ' ∷ strerror
            ++ newline)
          s)
    else after val s

unfoldable pub always_assert : Place → Bool → Text → Log → Ran (Unit {0})
unfolding panic
always_assert here condition formatted s = if condition then after tt s else panic here formatted s
