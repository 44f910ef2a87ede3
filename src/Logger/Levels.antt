-- ===== src/Logger/Levels.antt =====
-- Which messages core/util/logger.cpp drops in a release build.
use mydak_server.Base.{
  ◌≡◌, refl, List, [], ◌∷◌, Bool, Bool-cases, inl, inr, true, false, Option, some, Option-cases,
  Bytes, if◌then◌else◌, ◌>>=◌,
}
use mydak_server.Logger.{
  Console, log, log_error, log_debug, log_debug_error, log_func, log_func_error, log_func_debug,
  log_func_debug_error, call_log, call_log_func,
}

-- A call of the logger, with the message and the function that the call stands in.
pub data LogCall : Type 0 where
  logs logs_error logs_debug logs_debug_error : Bytes → LogCall
  logs_func logs_func_error logs_func_debug logs_func_debug_error : Bytes → Bytes → LogCall

unfoldable pub call : Bool → LogCall → Console → Option Console
call is_debug (logs x) t = some (log is_debug x t)
call is_debug (logs_error x) t = some (log_error is_debug x t)
call is_debug (logs_debug x) t = some (log_debug is_debug x t)
call is_debug (logs_debug_error x) t = some (log_debug_error is_debug x t)
call is_debug (logs_func x f) t = log_func is_debug x f t
call is_debug (logs_func_error x f) t = log_func_error is_debug x f t
call is_debug (logs_func_debug x f) t = log_func_debug is_debug x f t
call is_debug (logs_func_debug_error x f) t = log_func_debug_error is_debug x f t

unfoldable pub replay : Bool → List LogCall → Console → Option Console
replay is_debug [] t = some t
replay is_debug (c ∷ cs) t = do u ← call is_debug c t; replay is_debug cs u

-- The calls of `log` and `log_func`.
abbrev pub is_plain : LogCall → Bool
is_plain (logs x) = true
is_plain (logs_func x f) = true
is_plain _ = false

abbrev pub plain_calls : List LogCall → List LogCall
plain_calls [] = []
plain_calls (c ∷ cs) = if is_plain c then c ∷ plain_calls cs else plain_calls cs

plain-call : (c : LogCall) (t : Console) → is_plain c ≡ true → call false c t ≡ call true c t
unfolding call log log_func call_log call_log_func
plain-call (logs x) t h = refl
plain-call (logs_func x f) t h = refl
plain-call _ t h = cc

silent-call : (c : LogCall) (t : Console) → is_plain c ≡ false → call false c t ≡ some t
unfolding call log_error log_debug log_debug_error log_func_error log_func_debug
    log_func_debug_error call_log call_log_func
silent-call (logs_error x) t h = refl
silent-call (logs_debug x) t h = refl
silent-call (logs_debug_error x) t h = refl
silent-call (logs_func_error x f) t h = refl
silent-call (logs_func_debug x f) t h = refl
silent-call (logs_func_debug_error x f) t h = refl
silent-call _ t h = cc

-- For any calls of the eight functions that log, a build without debugging writes to the console
-- what a build with debugging writes for the calls of log and log_func alone, and throws where that
-- one throws.
pub replay-plain_calls :
    (cs : List LogCall) (t : Console) → replay false cs t ≡ replay true (plain_calls cs) t
unfolding replay
replay-plain_calls [] t = refl
replay-plain_calls (c ∷ cs) t = elim (Bool-cases (is_plain c)) [
  | inl plain ↦ elim (Option-cases (call true c t)) [
    | inl failed ↦ rw (plain, plain-call c t plain, failed, ◌>>=◌, replay) refl
    | inr (u, wrote) ↦
        rw (plain, plain-call c t plain, wrote, ◌>>=◌, replay) (replay-plain_calls cs u)
  ]
  | inr other ↦ rw (other, silent-call c t other, ◌>>=◌) (replay-plain_calls cs t)
]
