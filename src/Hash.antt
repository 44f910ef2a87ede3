-- ===== src/Hash.antt =====
-- `char_array_hasher` of core/util/tools.hpp, the hash of the map from public keys. `std::hash` of a
-- character is a parameter.
pub mod Digits
pub mod Last
use Prim.Native.Nat.{bit_xor}
use mydak_server.Base.{ℕ, ◌+◌, ◌*◌, ◌/◌, ◌%◌, ◌^◌, [], ◌∷◌, Bytes, word}

abbrev pub golden_ratio : ℕ
golden_ratio = 0x9e3779b97f4a7c15

module _ (hash_char : ℕ → ℕ) where
  -- The body of the loop, in `std::uint64_t`.
  unfoldable pub mix : ℕ → ℕ → ℕ
  mix hash c =
      bit_xor hash ((hash_char c + golden_ratio + hash * 2 ^ 6 % word + hash / 2 ^ 2) % word)

  unfoldable pub internal_hash : ℕ → Bytes → ℕ
  internal_hash hash [] = hash
  internal_hash hash (c ∷ cs) = internal_hash (mix hash c) cs

  unfoldable pub hasher : Bytes → ℕ
  hasher = internal_hash 0
