-- ===== src/Parameters/Numbers.antt =====
-- Numeric options of core/parameters/parameters_base.hpp.
use mydak_server.Base.{Bool, ℕ, ◌≤◌, ◌≡◌, refl, true, arith, Bytes}
use mydak_server.Decimal.{pos, to_chars}
use mydak_server.Decimal.RoundTrip.{is_a_number-to_chars, from_chars-to_chars}
use mydak_server.ParameterTable.{NumberBase, number_parameter}
use mydak_server.Parameters.{
  number_in_limits, int8_max, set_number, try_set_number, try_set_val, returns,
}

-- A numeric parameter is set to a number from 0 to 127 that is within its limits by the text that
-- std::to_chars writes of it.
pub try_set_val-to_chars :
    (make_address : Bytes → Bool) (p : NumberBase) (n : ℕ)
    → n ≤ int8_max
    → number_in_limits p (pos n) ≡ true
    → try_set_val make_address (number_parameter p) (to_chars n)
      ≡ returns (number_parameter (record p { number = pos n }))
unfolding try_set_val try_set_number set_number
try_set_val-to_chars make_address p n small inside =
    rw (is_a_number-to_chars n, from_chars-to_chars int8_max n small (omega arith), inside) refl
