-- ===== src/Parameters/Help.antt =====
-- `help` of core/parameters/parameters.cpp.
use mydak_server.StaticMap.{constexpr_for}
use mydak_server.Base.{
  ℕ, none, some, get_elem?, modify, map, length, ◌≡◌, refl, Bool, List, [], ◌∷◌, ◌++◌, Bytes,
}
use mydak_server.ParameterTable.{ParameterVariants, options, parameters}
use mydak_server.ParameterText.{to_string, limits_to_string}
use mydak_server.Logger.{Console, log}

-- " : ", " (", "), default value: " and "."
abbrev colon_text : Bytes
colon_text = 32 ∷ 58 ∷ 32 ∷ []

abbrev open_text : Bytes
open_text = 32 ∷ 40 ∷ []

abbrev default_text : Bytes
default_text =
    41 ∷ 44 ∷ 32 ∷ 100 ∷ 101 ∷ 102 ∷ 97 ∷ 117 ∷ 108 ∷ 116 ∷ 32 ∷ 118 ∷ 97 ∷ 108 ∷ 117 ∷ 101 ∷ 58
    ∷ 32 ∷ []

abbrev end_text : Bytes
end_text = 46 ∷ []

-- `std::get<i>(options_tuple)`. An index out of range does not compile.
option_at : ℕ → Bytes
option_at i = elim (get_elem? options i) [ none ↦ [] | some option ↦ option ]

-- The array that `constexpr_for` fills.
pub option_array : List Bytes
unfolding option_at constexpr_for
option_array =
    constexpr_for (length parameters) (λ i array. modify (λ _. option_at i) array i)
      (map (λ _. []) parameters)

-- `demangle` gives the name of the type of a parameter's value.
module _ (demangle : ParameterVariants → Bytes) (is_debug : Bool) where
  unfoldable pub help_line : Bytes → ParameterVariants → Bytes
  help_line option p =
      option
      ++ (colon_text
          ++ (limits_to_string p
              ++ (open_text ++ (demangle p ++ (default_text ++ (to_string p ++ end_text))))))

  -- The loop over the parameters.
  help_from : List Bytes → List ParameterVariants → Console → Console
  help_from [] ps console = console
  help_from (option ∷ names) [] console = console
  help_from (option ∷ names) (p ∷ ps) console =
      help_from names ps (log is_debug (help_line option p) console)

  -- What the console shows when `help` calls `std::exit`.
  pub help : Console → Console
  unfolding help_from
  help = help_from option_array parameters

-- The array holds the options in the order of the table.
option_array-options : option_array ≡ options
unfolding option_array option_at constexpr_for options parameters
option_array-options = refl
