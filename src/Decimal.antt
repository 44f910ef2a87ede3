-- ===== src/Decimal.antt =====
-- Numbers as text, for core/parameters: what `std::to_chars` writes and `std::from_chars` reads, for
-- numbers that are not negative, and signed numbers with their order.
pub mod RoundTrip
use mydak_server.Base.{
  ℕ, zero, suc, ◌+◌, ◌-◌, ◌*◌, ◌/◌, ◌%◌, List, [], ◌∷◌, ◌++◌, Bool, true, false, ◌&&◌, Option, none,
  some, ltb, leb, if◌then◌else◌, Bytes,
}

-- The decimal digits of a number below 10 ^ fuel.
unfoldable pub digits : ℕ → ℕ → Bytes
digits zero n = []
digits (suc fuel) n =
    let front = digits fuel (n / 10) ++ (48 + n % 10) ∷ [] in
    if ltb n 10 then (48 + n) ∷ [] else front

-- A `std::uint64_t` has 20 digits at most.
unfoldable pub to_chars : ℕ → Bytes
to_chars = digits 20

abbrev pub is_digit : ℕ → Bool
is_digit c = leb 48 c && leb c 57

unfoldable pub all_digits : Bytes → Bool
all_digits [] = true
all_digits (c ∷ cs) = is_digit c && all_digits cs

-- `is_a_number` of core/parameters/parameters_base.cpp
unfoldable pub is_a_number : Bytes → Bool
unfolding all_digits
is_a_number [] = false
is_a_number (c ∷ cs) = all_digits (c ∷ cs)

-- The number that digits spell behind the number `n`.
abbrev pub value : ℕ → Bytes → ℕ
value n [] = n
value n (c ∷ cs) = value (n * 10 + (c - 48)) cs

-- `std::from_chars` into a type whose greatest value is `max`, on a text of digits. `none` is
-- `std::errc::result_out_of_range`.
unfoldable pub from_chars : ℕ → Bytes → Option ℕ
from_chars max text = if ltb max (value 0 text) then none else some (value 0 text)

-- Signed numbers; `negsuc n` is -(n + 1).
pub data ℤ : Type 0 where
  pos : ℕ → ℤ
  negsuc : ℕ → ℤ

abbrev pub leb_ℤ : ℤ → ℤ → Bool
leb_ℤ (pos a) (pos b) = leb a b
leb_ℤ (pos a) (negsuc b) = false
leb_ℤ (negsuc a) (pos b) = true
leb_ℤ (negsuc a) (negsuc b) = leb b a
