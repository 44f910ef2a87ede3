-- ===== src/Parameters.antt =====
-- core/parameters: the options of the command line, from their table in parameters.hpp to
-- `process_args` in parameters_accessor.cpp. Text is a list of bytes.
pub mod Limits
pub mod Overrides
pub mod Numbers
pub mod Access
pub mod Typing
pub mod Help
pub mod Equals
pub mod Refusals
use mydak_server.Base.{
  ℕ, suc, ◌==◌, ◌&&◌, List, [], ◌∷◌, Bool, true, false, not, Option, none, some, ltb, leb,
  if◌then◌else◌, Bytes, bytes_eq, length, get_elem?, modify,
}
use mydak_server.Decimal.{ℤ, pos, leb_ℤ, is_a_number, from_chars, to_chars}
use mydak_server.ParameterTable.{
  ParameterBase, NumberBase, ParameterVariants, localhost, help_option, parameters, options,
}
use mydak_server.ParameterText.{
  Exit, not_in_bounds, not_a_number, not_an_ip, wrong_format, empty_value, wrong_parameter,
  text_limits, number_limits,
}
use mydak_server.StaticMap.{at, index_static_map}

-- How the processing ends: with a value, with a call of `std::exit`, or with an index out of bounds.
pub data Processed {ℓ} (A : Type ℓ) : Type ℓ where
  returns : A → Processed A
  exits : Exit → Processed A
  undefined : Processed A

abbrev pub and_process {ℓ} : {A B : Type ℓ} → Processed A → (A → Processed B) → Processed B
and_process (Processed.returns a) f = f a
and_process (Processed.exits e) f = Processed.exits e
and_process Processed.undefined f = Processed.undefined

unfoldable pub is_in_limits : ParameterBase → Bytes → Bool
is_in_limits p value = leb p.min (length value) && leb (length value) p.max

unfoldable pub try_set_val_internal : ParameterBase → Bytes → Processed ParameterBase
unfolding is_in_limits
try_set_val_internal p value =
    if is_in_limits p value
    then Processed.returns (record p { text = value })
    else Processed.exits (not_in_bounds value (text_limits p))

unfoldable pub number_in_limits : NumberBase → ℤ → Bool
number_in_limits p n = leb_ℤ p.min n && leb_ℤ n p.max

-- `std::numeric_limits<int8_t>::max()`
abbrev pub int8_max : ℕ
int8_max = 127

-- `parameter_base_arithmetic<int8_t>::try_set_val`
unfoldable pub set_number : NumberBase → Bytes → Option ℕ → Processed NumberBase
unfolding number_in_limits
set_number p value none = Processed.exits (not_a_number value)
set_number p value (some n) =
    if number_in_limits p (pos n)
    then Processed.returns (record p { number = pos n })
    else Processed.exits (not_in_bounds (to_chars n) (number_limits p))

unfoldable pub try_set_number : NumberBase → Bytes → Processed NumberBase
unfolding set_number
try_set_number p value =
    if is_a_number value
    then set_number p value (from_chars int8_max value)
    else Processed.exits (not_a_number value)

-- The first `=` of an argument: the text in front of it and the text behind it.
unfoldable pub split_at_equals : Bytes → Option (Bytes × Bytes)
split_at_equals [] = none
split_at_equals (c ∷ cs) =
    let rest = split_at_equals cs in
    if c == 61
    then some ([], cs)
    else elim rest [ none ↦ none | some (before, after) ↦ some (c ∷ before, after) ]

-- `asio::ip::make_address` reports no error for a text.
module _ (make_address : Bytes → Bool) where
  unfoldable pub is_an_ip : Bytes → Bool
  is_an_ip raw_ip = if bytes_eq raw_ip localhost then true else make_address raw_ip

  unfoldable pub try_set_val : ParameterVariants → Bytes → Processed ParameterVariants
  try_set_val (ParameterVariants.number_parameter p) value =
      and_process (try_set_number p value)
        (λ q. Processed.returns (ParameterVariants.number_parameter q))
  try_set_val (ParameterVariants.string_parameter p) value =
      and_process (try_set_val_internal p value)
        (λ q. Processed.returns (ParameterVariants.string_parameter q))
  try_set_val (ParameterVariants.ip_parameter p) value =
      if is_an_ip value
      then and_process (try_set_val_internal p value)
          (λ q. Processed.returns (ParameterVariants.ip_parameter q))
      else Processed.exits (not_an_ip value)

  -- `variants.visit` on the parameter at an index.
  unfoldable pub visit_at : ℕ → Bytes → List ParameterVariants → Processed (List ParameterVariants)
  visit_at index value ps = elim (get_elem? ps index) [
    | none ↦ Processed.undefined
    | some p ↦ and_process (try_set_val p value) (λ q. Processed.returns (modify (λ _. q) ps index))
  ]

  unfoldable pub set_option :
      Bytes → Bytes → List ParameterVariants → Processed (List ParameterVariants)
  unfolding visit_at
  set_option name value ps = elim (at name (index_static_map options)) [
    | none ↦ Processed.exits (wrong_parameter name)
    | some index ↦ visit_at index value ps
  ]

  -- The body of the loop. `immortal_strings` has 128 elements.
  unfoldable pub process_arg :
      ℕ → Bytes → List ParameterVariants → Processed (List ParameterVariants)
  unfolding set_option
  process_arg i raw ps =
      if bytes_eq raw help_option then Processed.exits Exit.helped else elim (split_at_equals raw) [
        | none ↦ Processed.exits (wrong_format raw)
        | some (parameter_string, value) ↦
            if leb 128 i
            then Processed.undefined
            else if length value == 0
            then Processed.exits (empty_value parameter_string)
            else set_option parameter_string value ps
      ]

  -- The loop over `argv` from 1 on.
  unfoldable pub process_from :
      ℕ → List Bytes → List ParameterVariants → Processed (List ParameterVariants)
  process_from i [] ps = Processed.returns ps
  process_from i (raw ∷ args) ps = and_process (process_arg i raw ps) (process_from (suc i) args)

  unfoldable pub process_args : List Bytes → Processed (List ParameterVariants)
  process_args args = process_from 1 args parameters
