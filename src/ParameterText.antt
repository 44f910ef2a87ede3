-- ===== src/ParameterText.antt =====
-- The texts of core/parameters: what `help` shows of a parameter, and the messages about arguments
-- that are refused. Text is a list of bytes.
use mydak_server.Base.{suc, [], ◌∷◌, ◌++◌, Bytes}
use mydak_server.Decimal.{ℤ, pos, negsuc, to_chars}
use mydak_server.ParameterTable.{
  ParameterBase, NumberBase, ParameterVariants, number_parameter, string_parameter, ip_parameter,
}

-- `to_string_unsafe` of a signed number. 45 is a minus sign.
unfoldable pub number_to_string : ℤ → Bytes
number_to_string (pos n) = to_chars n
number_to_string (negsuc n) = 45 ∷ to_chars (suc n)

-- "from " and " to "
abbrev from_text : Bytes
from_text = 102 ∷ 114 ∷ 111 ∷ 109 ∷ 32 ∷ []

abbrev to_text : Bytes
to_text = 32 ∷ 116 ∷ 111 ∷ 32 ∷ []

unfoldable pub to_string : ParameterVariants → Bytes
unfolding number_to_string
to_string (number_parameter p) = number_to_string p.number
to_string (string_parameter p) = p.text
to_string (ip_parameter p) = p.text

-- The limits of a length, and those of a number.
unfoldable pub text_limits : ParameterBase → Bytes
text_limits p = from_text ++ (to_chars p.min ++ (to_text ++ to_chars p.max))

unfoldable pub number_limits : NumberBase → Bytes
unfolding number_to_string
number_limits p = from_text ++ (number_to_string p.min ++ (to_text ++ number_to_string p.max))

unfoldable pub limits_to_string : ParameterVariants → Bytes
unfolding number_limits text_limits
limits_to_string (number_parameter p) = number_limits p
limits_to_string (string_parameter p) = text_limits p
limits_to_string (ip_parameter p) = text_limits p

-- How the program ends: with the lines of `help`, with a message of `logger::exit`, or with one of
-- `logger::exit_func`, in front of which the name of the function is shown.
pub data Exit : Type 0 where
  helped : Exit
  exit_with exit_func_with : Bytes → Exit

-- "… is not in bounds: …!"
unfoldable pub not_in_bounds : Bytes → Bytes → Exit
not_in_bounds value limits = Exit.exit_func_with (
    value
    ++ (32 ∷ 105 ∷ 115 ∷ 32 ∷ 110 ∷ 111 ∷ 116 ∷ 32 ∷ 105 ∷ 110 ∷ 32 ∷ 98 ∷ 111 ∷ 117 ∷ 110 ∷ 100
        ∷ 115 ∷ 58 ∷ 32 ∷ [])
    ++ limits
    ++ 33 ∷ [])

-- "… is not a number!"
unfoldable pub not_a_number : Bytes → Exit
not_a_number value = Exit.exit_func_with (
    value
    ++ 32 ∷ 105 ∷ 115 ∷ 32 ∷ 110 ∷ 111 ∷ 116 ∷ 32 ∷ 97 ∷ 32 ∷ 110 ∷ 117 ∷ 109 ∷ 98 ∷ 101 ∷ 114 ∷ 33
      ∷ [])

-- "… is not an ip!"
unfoldable pub not_an_ip : Bytes → Exit
not_an_ip value =
    Exit.exit_func_with
      (value ++ 32 ∷ 105 ∷ 115 ∷ 32 ∷ 110 ∷ 111 ∷ 116 ∷ 32 ∷ 97 ∷ 110 ∷ 32 ∷ 105 ∷ 112 ∷ 33 ∷ [])

-- "Wrong parameter format: …! (no equals symbol)"
unfoldable pub wrong_format : Bytes → Exit
wrong_format raw = Exit.exit_with (
    (87 ∷ 114 ∷ 111 ∷ 110 ∷ 103 ∷ 32 ∷ 112 ∷ 97 ∷ 114 ∷ 97 ∷ 109 ∷ 101 ∷ 116 ∷ 101 ∷ 114 ∷ 32 ∷ 102
      ∷ 111 ∷ 114 ∷ 109 ∷ 97 ∷ 116 ∷ 58 ∷ 32 ∷ [])
    ++ raw
    ++ 33 ∷ 32 ∷ 40 ∷ 110 ∷ 111 ∷ 32 ∷ 101 ∷ 113 ∷ 117 ∷ 97 ∷ 108 ∷ 115 ∷ 32 ∷ 115 ∷ 121 ∷ 109 ∷ 98
      ∷ 111 ∷ 108 ∷ 41 ∷ [])

-- "Empty value: …!"
unfoldable pub empty_value : Bytes → Exit
empty_value name = Exit.exit_with (
    (69 ∷ 109 ∷ 112 ∷ 116 ∷ 121 ∷ 32 ∷ 118 ∷ 97 ∷ 108 ∷ 117 ∷ 101 ∷ 58 ∷ 32 ∷ [])
    ++ name
    ++ 33 ∷ [])

-- "Wrong parameter: …! seek help: --help."
unfoldable pub wrong_parameter : Bytes → Exit
wrong_parameter name = Exit.exit_with (
    (87 ∷ 114 ∷ 111 ∷ 110 ∷ 103 ∷ 32 ∷ 112 ∷ 97 ∷ 114 ∷ 97 ∷ 109 ∷ 101 ∷ 116 ∷ 101 ∷ 114 ∷ 58 ∷ 32
      ∷ [])
    ++ name
    ++ 33 ∷ 32 ∷ 115 ∷ 101 ∷ 101 ∷ 107 ∷ 32 ∷ 104 ∷ 101 ∷ 108 ∷ 112 ∷ 58 ∷ 32 ∷ 45 ∷ 45 ∷ 104 ∷ 101
      ∷ 108 ∷ 112 ∷ 46 ∷ [])
