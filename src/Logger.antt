-- ===== src/Logger.antt =====
-- core/util/logger.hpp and logger.cpp: what is written to the console. Text is a list of bytes. The
-- names of functions are those that `std::source_location` gives.
pub mod Names
pub mod Levels
use mydak_server.Base.{
  ℕ, suc, ◌+◌, ◌-◌, ◌%◌, ◌==◌, List, [], ◌∷◌, ◌++◌, Bool, true, false, not, ◌&&◌, Option, none,
  some, ltb, if◌then◌else◌, Bytes, length, take, drop, word,
}

-- `std::cout` and `std::cerr`
pub data Stream : Type 0 where
  cout cerr : Stream

-- The console: what each stream was given, in order.
abbrev pub Console : Type 0
Console = List (Stream × Bytes)

-- A message of a `boost::system::system_error`: its text, and its code in decimal.
pub record SystemError : Type 0 where
  pub message : Bytes
  pub value : Bytes

-- `string_view::find` of one character; `none` is `npos`.
unfoldable pub find_char : ℕ → Bytes → Option ℕ
find_char c [] = none
find_char c (b ∷ bs) =
    let rest = find_char c bs in
    if b == c then some 0 else elim rest [ none ↦ none | some i ↦ some (suc i) ]

-- `string_view::substr`; `none` is the exception `std::out_of_range`.
unfoldable pub substr : Bytes → ℕ → ℕ → Option Bytes
substr text pos count = if ltb (length text) pos then none else some (take count (drop pos text))

-- `index0 - index1 - 1` in `std::size_t`
abbrev pub between : ℕ → ℕ → ℕ
between index0 index1 = (index0 + word - index1 + word - 1) % word

unfoldable pub cut_name : Bytes → Option ℕ → Option ℕ → Option Bytes
cut_name func (some index0) (some index1) =
    substr func ((index1 + 1) % word) (between index0 index1)
cut_name func (some index0) none = substr func 0 index0
cut_name func none index1 = some func

-- 40 is `(` and 32 is a space.
unfoldable pub get_func_name : Bytes → Option Bytes
unfolding cut_name
get_func_name func = cut_name func (find_char 40 func) (find_char 32 func)

-- " : ", " (code: ", ")" and the end of a line
abbrev pub separator : Bytes
separator = 32 ∷ 58 ∷ 32 ∷ []

abbrev pub code_text : Bytes
code_text = 32 ∷ 40 ∷ 99 ∷ 111 ∷ 100 ∷ 101 ∷ 58 ∷ 32 ∷ []

abbrev pub newline : Bytes
newline = 10 ∷ []

-- `!message.empty() ? std::format(" : {}", message) : ""`
unfoldable pub separated : Bytes → Bytes
separated [] = []
separated (b ∷ bs) = separator ++ (b ∷ bs)

-- `std::format("{} (code: {})", e.code().message(), e.code().value())`
unfoldable pub error_text : SystemError → Bytes
error_text e = e.message ++ (code_text ++ (e.value ++ 41 ∷ []))

abbrev pub stream_for : Bool → Stream
stream_for true = Stream.cerr
stream_for false = Stream.cout

-- A line that starts with the name of a function; `none` is an exception from `get_func_name`.
unfoldable pub named_line : Stream → Bytes → Bytes → Console → Option Console
named_line out func text console = elim (get_func_name func) [
  | none ↦ none
  | some name ↦ some (console ++ (out, name ++ (text ++ newline)) ∷ [])
]

-- `DEBUG` is false in a build with `NDEBUG`.
module _ (is_debug : Bool) where
  unfoldable pub call_log_func : Bool → Bool → Bytes → Bytes → Console → Option Console
  call_log_func error debug message func console =
      if debug && not is_debug
      then some console
      else named_line (stream_for error) func (separated message) console

  unfoldable pub call_log : Bool → Bool → Bytes → Console → Console
  call_log error debug message console =
      if debug && not is_debug
      then console
      else console ++ (stream_for error, message ++ newline) ∷ []

  unfoldable pub log : Bytes → Console → Console
  log = call_log false false

  unfoldable pub log_error : Bytes → Console → Console
  log_error = call_log false true

  unfoldable pub log_debug : Bytes → Console → Console
  log_debug = call_log false true

  unfoldable pub log_debug_error : Bytes → Console → Console
  log_debug_error = call_log true true

  unfoldable pub log_func : Bytes → Bytes → Console → Option Console
  log_func = call_log_func false false

  unfoldable pub log_func_error : Bytes → Bytes → Console → Option Console
  log_func_error = call_log_func false true

  unfoldable pub log_func_debug : Bytes → Bytes → Console → Option Console
  log_func_debug = call_log_func false true

  unfoldable pub log_func_debug_error : Bytes → Bytes → Console → Option Console
  log_func_debug_error = call_log_func true true

-- The functions that end in `std::exit(1)`: what the console shows then.
unfoldable pub exit : Bytes → Console → Console
exit message console = console ++ (Stream.cerr, message ++ newline) ∷ []

unfoldable pub exit_error : SystemError → Console → Console
unfolding error_text
exit_error e console = console ++ (Stream.cerr, error_text e ++ newline) ∷ []

-- `std::format("{} : {}", …)`, whose second argument has a separator of its own.
unfoldable pub exit_func : Bytes → Bytes → Console → Option Console
exit_func message func = named_line Stream.cerr func (separator ++ separated message)

unfoldable pub exit_func_error : SystemError → Bytes → Console → Option Console
exit_func_error e func = named_line Stream.cerr func (separator ++ error_text e)

unfoldable pub exception : SystemError → Console → Console
exception e console = console ++ (Stream.cout, error_text e ++ newline) ∷ []

unfoldable pub exception_func : SystemError → Bytes → Console → Option Console
exception_func e func = named_line Stream.cout func (separator ++ error_text e)
