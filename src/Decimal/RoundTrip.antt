-- ===== src/Decimal/RoundTrip.antt =====
-- Numbers that are written and read, for core/parameters/parameters_base.hpp.
use native.Mathlib.Nat.{pow-succ'}
use mydak_server.Base.{
  ℕ, zero, suc, ◌+◌, ◌-◌, ◌*◌, ◌/◌, ◌%◌, ◌^◌, ◌≤◌, ◌<◌, ◌≡◌, ◌≢◌, refl, ◌∙◌, inl, inr, [], ◌∷◌,
  ◌++◌, true, Bool-cases, some, arith, ltb, Bytes,
}
use mydak_server.Decimal.{digits, to_chars, is_digit, all_digits, is_a_number, value, from_chars}

value-append : (n : ℕ) (xs : Bytes) (c : ℕ) → value n (xs ++ c ∷ []) ≡ value n xs * 10 + (c - 48)
value-append n [] c = refl
value-append n (x ∷ xs) c = value-append (n * 10 + (x - 48)) xs c

all_digits-append :
    (xs : Bytes) (c : ℕ)
    → all_digits xs ≡ true
    → is_digit c ≡ true
    → all_digits (xs ++ c ∷ []) ≡ true
unfolding all_digits
all_digits-append [] c h k = ground arith
all_digits-append (x ∷ xs) c h k = ground (arith, all_digits-append xs c)

value-digits : (fuel n : ℕ) → n < 10 ^ fuel → value 0 (digits fuel n) ≡ n
unfolding digits
value-digits zero n h = omega arith
value-digits (suc fuel) n h = elim (Bool-cases (ltb n 10)) [
  | inl small ↦ rw small (ground arith)
  | inr large ↦ rw large (
      value-append 0 (digits fuel (n / 10)) (48 + n % 10)
      ∙ omega (
        arith,
        value-digits fuel (n / 10)
            (let e : 10 ^ suc fuel ≡ 10 * 10 ^ fuel = pow-succ' 10 fuel in omega arith),
      ))
]

all_digits-digits : (fuel n : ℕ) → all_digits (digits fuel n) ≡ true
unfolding digits
all_digits-digits zero n = unfold all_digits in refl
all_digits-digits (suc fuel) n = elim (Bool-cases (ltb n 10)) [
  | inl small ↦ rw small (unfold all_digits in ground arith)
  | inr large ↦ rw large (
      all_digits-append (digits fuel (n / 10)) (48 + n % 10) (all_digits-digits fuel (n / 10))
        (ground arith))
]

append_one-ne-nil : (xs : Bytes) (c : ℕ) → (xs ++ c ∷ []) ≢ []
append_one-ne-nil [] c e = cc
append_one-ne-nil (x ∷ xs) c e = cc

digits-ne-nil : (fuel n : ℕ) → digits (suc fuel) n ≢ []
unfolding digits
digits-ne-nil fuel n = elim (Bool-cases (ltb n 10)) [
  | inl small ↦ rw small (λ e. cc)
  | inr large ↦ rw large (append_one-ne-nil (digits fuel (n / 10)) (48 + n % 10))
]

is_a_number-of : (xs : Bytes) → xs ≢ [] → all_digits xs ≡ true → is_a_number xs ≡ true
unfolding is_a_number
is_a_number-of [] h k = absurd (h refl)
is_a_number-of (c ∷ cs) h k = k

pub is_a_number-to_chars : (n : ℕ) → is_a_number (to_chars n) ≡ true
unfolding to_chars
is_a_number-to_chars n = is_a_number-of (digits 20 n) (digits-ne-nil 19 n) (all_digits-digits 20 n)

pub from_chars-to_chars : (max n : ℕ) → n ≤ max → n < 10 ^ 20 → from_chars max (to_chars n) ≡ some n
unfolding from_chars to_chars
from_chars-to_chars max n h room = ground (arith, value-digits 20 n room)
