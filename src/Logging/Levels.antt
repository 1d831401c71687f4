-- ===== src/Logging/Levels.antt =====
-- The level of utils/logging.c changes what is printed and nothing else.
use ex.Common.{
  ℕ, ◌≤◌, ◌≡◌, refl, inl, inr, Bool, true, false, ◌||◌, Bool-cases, List, [], ◌∷◌, arith,
  if◌then◌else◌,
}
use ex.Common.Int.{ℤ, minus_one, ◌==ℤ◌}
use ex.Fs.State.Memory.{Text}
use ex.Logging.{
  Level, log_quiet, log_normal, log_verbose, Log, Ran, after, exited, Place, set_log_level, info,
  error, panic, warn, log, debug, check, always_assert, is_normal, is_verbose,
}

-- The uses of the macros, and the calls of `set_log_level`.
pub data Statement : Type 0 where
  level_call : Level → Statement
  info_call : Place → Text → Statement
  error_call : Place → Text → Text → Statement
  panic_call : Place → Text → Statement
  warn_call : Place → Text → Statement
  log_call : Place → Text → Statement
  debug_call : Place → Text → Statement
  check_call : Place → Text → ℤ → Statement
  assert_call : Place → Bool → Text → Statement

-- The value of CHECK is dropped.
abbrev pub drop_value : Ran ℤ → Ran (Unit {0})
drop_value (after val s) = after tt s
drop_value (exited status s) = exited status s

abbrev pub execute : Statement → Log → Ran (Unit {0})
execute (level_call level) s = after tt (set_log_level level s)
execute (info_call here formatted) s = info here formatted s
execute (error_call here strerror formatted) s = error here strerror formatted s
execute (panic_call here formatted) s = panic here formatted s
execute (warn_call here formatted) s = warn here formatted s
execute (log_call here formatted) s = log here formatted s
execute (debug_call here formatted) s = debug here formatted s
execute (check_call here strerror val) s = drop_value (check here strerror val s)
execute (assert_call here condition formatted) s = always_assert here condition formatted s

abbrev pub continue_with : (Log → Ran (Unit {0})) → Ran (Unit {0}) → Ran (Unit {0})
continue_with f (after v s) = f s
continue_with f (exited status s) = exited status s

-- Statements one after the other, up to the one that ends the program.
abbrev pub run_all : List Statement → Log → Ran (Unit {0})
run_all [] s = after tt s
run_all (c ∷ cs) s = continue_with (run_all cs) (execute c s)

abbrev pub rank : Level → ℕ
rank log_quiet = 0
rank log_normal = 1
rank log_verbose = 2

-- The first list is the second one without some of its elements.
pub data Sublist {A : Type 0} : List A → List A → Type 0 where
  none_left : Sublist [] []
  skip : {xs ys : List A} (y : A) → Sublist xs ys → Sublist xs (y ∷ ys)
  keep : {xs ys : List A} (x : A) → Sublist xs ys → Sublist (x ∷ xs) (x ∷ ys)

pub record IsQuieter (s t : Log) : Type 0 where
  pub levels : rank s.g_level ≤ rank t.g_level
  pub texts : Sublist s.printed t.printed

-- Both go on, or both have ended, with the same status.
pub data Alike : Ran (Unit {0}) → Ran (Unit {0}) → Type 0 where
  both_on : {s t : Log} → IsQuieter s t → Alike (after tt s) (after tt t)
  both_ended : {s t : Log} {status : ℤ} → IsQuieter s t → Alike (exited status s) (exited status t)

module _ {s t : Log} (q : IsQuieter s t) where
  -- Both print the text.
  pub keep-IsQuieter :
      (text : Text)
      → IsQuieter
          (record s { printed = text ∷ s.printed })
          (record t { printed = text ∷ t.printed })
  keep-IsQuieter text = record { levels = q.levels; texts = keep text q.texts }

  -- Only the louder one prints the text.
  pub skip-IsQuieter : (text : Text) → IsQuieter s (record t { printed = text ∷ t.printed })
  skip-IsQuieter text = record { levels = q.levels; texts = skip text q.texts }

-- A text that is printed under a condition, which holds for the louder one if it does for the other.
gate-Alike :
    {s t : Log} (a b : Bool) (text : Text)
    → IsQuieter s t
    → (a ≡ true → b ≡ true)
    → Alike
        (if a then after tt (record s { printed = text ∷ s.printed }) else after tt s)
        (if b then after tt (record t { printed = text ∷ t.printed }) else after tt t)
gate-Alike true true text q h = both_on (keep-IsQuieter q text)
gate-Alike true false text q h = absurd (cc (h refl))
gate-Alike false true text q h = both_on (skip-IsQuieter q text)
gate-Alike false false text q h = both_on q

verbose_mono : (l l' : Level) → rank l ≤ rank l' → is_verbose l ≡ true → is_verbose l' ≡ true
verbose_mono log_quiet l' h e = cc
verbose_mono log_normal l' h e = cc
verbose_mono log_verbose log_quiet h e = absurd (omega arith)
verbose_mono log_verbose log_normal h e = absurd (omega arith)
verbose_mono log_verbose log_verbose h e = refl

normal_mono :
    (l l' : Level)
    → rank l ≤ rank l'
    → (is_normal l || is_verbose l) ≡ true
    → (is_normal l' || is_verbose l') ≡ true
normal_mono log_quiet l' h e = cc
normal_mono log_normal log_quiet h e = absurd (omega arith)
normal_mono log_normal log_normal h e = refl
normal_mono log_normal log_verbose h e = refl
normal_mono log_verbose log_quiet h e = absurd (omega arith)
normal_mono log_verbose log_normal h e = absurd (omega arith)
normal_mono log_verbose log_verbose h e = refl

execute-Alike : (c : Statement) {s t : Log} → IsQuieter s t → Alike (execute c s) (execute c t)
unfolding set_log_level info error panic warn log debug check always_assert
execute-Alike (level_call level) q = both_on (record { levels = omega arith; texts = q.texts })
execute-Alike (info_call here formatted) q = both_on (keep-IsQuieter q _)
execute-Alike (error_call here strerror formatted) q = both_ended (keep-IsQuieter q _)
execute-Alike (panic_call here formatted) q = both_ended (keep-IsQuieter q _)
execute-Alike (warn_call here formatted) {s} {t} q =
    gate-Alike _ _ _ q (normal_mono s.g_level t.g_level q.levels)
execute-Alike (log_call here formatted) {s} {t} q =
    gate-Alike _ _ _ q (normal_mono s.g_level t.g_level q.levels)
execute-Alike (debug_call here formatted) {s} {t} q =
    gate-Alike _ _ _ q (verbose_mono s.g_level t.g_level q.levels)
execute-Alike (check_call here strerror val) q = elim (Bool-cases (val ==ℤ minus_one)) [
  | inl e ↦ rw e (both_ended (keep-IsQuieter q _))
  | inr e ↦ rw e (both_on q)
]
execute-Alike (assert_call here true formatted) q = both_on q
execute-Alike (assert_call here false formatted) q = both_ended (keep-IsQuieter q _)

next-Alike :
    (f : Log → Ran (Unit {0})) {a b : Ran (Unit {0})}
    → ((s t : Log) → IsQuieter s t → Alike (f s) (f t))
    → Alike a b
    → Alike (continue_with f a) (continue_with f b)
next-Alike f h (both_on q) = h _ _ q
next-Alike f h (both_ended q) = both_ended q

-- A higher level changes nothing but that more may be printed: from a second log that has a level
-- which is no lower and has printed what the first one has, and possibly more, any sequence of uses of
-- the macros and calls of set_log_level goes on or ends the program just as from the first one, with
-- the same status, and leaves a log that again has a level which is no lower and has printed, in the
-- same order, what the first one has, and possibly more.
pub run_all-Alike :
    (cs : List Statement) (s t : Log) → IsQuieter s t → Alike (run_all cs s) (run_all cs t)
run_all-Alike [] s t q = both_on q
run_all-Alike (c ∷ cs) s t q =
    next-Alike (run_all cs) (λ s' t' q'. run_all-Alike cs s' t' q') (execute-Alike c q)
