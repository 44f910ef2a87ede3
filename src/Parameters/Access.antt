-- ===== src/Parameters/Access.antt =====
-- Reading the parameters, in core/parameters/parameters_accessor.hpp: `get` names the type that
-- the value has by the number in `type_sequence`.
use mydak_server.Base.{ℕ, ◌==◌, List, Option, none, some, Bytes, if◌then◌else◌, ◌>>=◌, get_elem?}
use mydak_server.Decimal.{ℤ}
use mydak_server.StaticMap.{consteval_at, static_string, type_at, index_static_map}
use mydak_server.ParameterTable.{
  ParameterVariants, number_parameter, string_parameter, ip_parameter, type_small_number,
  type_string, type_ip, options, type_sequence,
}

-- The value of a parameter, of the type that it has.
pub data Value : Type 0 where
  number_value : ℤ → Value
  text_value : Bytes → Value

-- `std::variant::index`
unfoldable pub variant_index : ParameterVariants → ℕ
variant_index (number_parameter p) = type_small_number
variant_index (string_parameter p) = type_string
variant_index (ip_parameter p) = type_ip

unfoldable pub get_data : ParameterVariants → Value
get_data (number_parameter p) = Value.number_value p.number
get_data (string_parameter p) = Value.text_value p.text
get_data (ip_parameter p) = Value.text_value p.text

-- `std::get` of an alternative; `none` is the exception `std::bad_variant_access`.
unfoldable pub get_alternative : ℕ → ParameterVariants → Option ParameterVariants
unfolding variant_index
get_alternative type p = if variant_index p == type then some p else none

-- `get<N>`. An index out of range does not compile.
unfoldable pub get_at : ℕ → List ParameterVariants → Option Value
get_at n ps = do
  type ← type_at n type_sequence
  p ← get_elem? ps n
  q ← get_alternative type p
  some (get_data q)

-- `get<Option>`. An option that is not in the table does not compile.
unfoldable pub get : Bytes → List ParameterVariants → Option Value
get option ps = do n ← consteval_at (static_string option) (index_static_map options); get_at n ps
