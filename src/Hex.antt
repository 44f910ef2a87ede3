-- ===== src/Hex.antt =====
-- The conversions between bytes and hexadecimal text in core/util/tools.hpp, which call libsodium.
pub mod RoundTrip
use mydak_server.Base.{ℕ, ◌+◌, ◌*◌, List, [], ◌∷◌, Option, none, some, Bytes, length, take}
use mydak_server.ParameterText.{Exit, exit_func_with}

-- The text with the zero behind it that `sodium_bin2hex` writes into a buffer of some size, where
-- `none` is a null pointer; and the bytes that `sodium_hex2bin` writes, where `none` is a result
-- other than 0.
pub record Sodium : Type 0 where
  pub sodium_bin2hex : Bytes → ℕ → Option Bytes
  pub sodium_hex2bin : Bytes → ℕ → Option Bytes

-- A result, an array that was not written, or the end of the program.
pub data Converted : Type 0 where
  converts : Bytes → Converted
  unwritten : Converted
  ends : Exit → Converted

-- "Failed to convert binary to hex" and "Failed to convert hex to binary"
abbrev pub no_hex : Exit
no_hex = exit_func_with (
    70 ∷ 97 ∷ 105 ∷ 108 ∷ 101 ∷ 100 ∷ 32 ∷ 116 ∷ 111 ∷ 32 ∷ 99 ∷ 111 ∷ 110 ∷ 118 ∷ 101 ∷ 114 ∷ 116
    ∷ 32 ∷ 98 ∷ 105 ∷ 110 ∷ 97 ∷ 114 ∷ 121 ∷ 32 ∷ 116 ∷ 111 ∷ 32 ∷ 104 ∷ 101 ∷ 120 ∷ [])

abbrev pub no_binary : Exit
no_binary = exit_func_with (
    70 ∷ 97 ∷ 105 ∷ 108 ∷ 101 ∷ 100 ∷ 32 ∷ 116 ∷ 111 ∷ 32 ∷ 99 ∷ 111 ∷ 110 ∷ 118 ∷ 101 ∷ 114 ∷ 116
    ∷ 32 ∷ 104 ∷ 101 ∷ 120 ∷ 32 ∷ 116 ∷ 111 ∷ 32 ∷ 98 ∷ 105 ∷ 110 ∷ 97 ∷ 114 ∷ 121 ∷ [])

module _ (sodium : Sodium) where
  open sodium use {sodium_bin2hex, sodium_hex2bin}

  -- The program ends if a text was written.
  unfoldable pub bin2hex_into : Bytes → ℕ → Converted
  bin2hex_into bin size = elim (sodium_bin2hex bin size) [
    | none ↦ Converted.unwritten
    | some hex ↦ Converted.ends no_hex
  ]

  unfoldable pub bin2hex : Bytes → Converted
  unfolding bin2hex_into
  bin2hex bin = bin2hex_into bin (length bin * 2 + 1)

  unfoldable pub bin2hex_string : Bytes → Converted
  bin2hex_string bin = elim (sodium_bin2hex bin (length bin * 2 + 1)) [
    | none ↦ Converted.ends no_hex
    | some hex ↦ Converted.converts (take (length bin * 2) hex)
  ]

  -- What `sodium_hex2bin` does not write of the array is left out.
  unfoldable pub hex2bin_into : Bytes → ℕ → Converted
  hex2bin_into hex size = elim (sodium_hex2bin hex size) [
    | none ↦ Converted.ends no_binary
    | some bin ↦ Converted.converts bin
  ]

  unfoldable pub hex2bin : ℕ → Bytes → Converted
  unfolding hex2bin_into
  hex2bin n hex = hex2bin_into hex n
