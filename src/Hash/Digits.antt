-- ===== src/Hash/Digits.antt =====
-- The exclusive or of two numbers, from its binary digits.
use Prim.Native.Nat.{bit_xor, bit_xor-bitwise, digits, differ}
use native.Mathlib.Nat.{pow-succ'}
use mydak_server.Base.{ℕ, zero, suc, ◌/◌, ◌%◌, ◌^◌, ◌<◌, ◌≡◌, refl, sym, ◌∙◌, arith}

abbrev xor_digits : ℕ → ℕ → ℕ → ℕ
xor_digits n a b = digits (λ b. b) differ n a b

differ-lt : (x y : ℕ) → x < 2 → y < 2 → differ x y < 2
differ-lt zero y h k = k
differ-lt (suc zero) zero h k = omega arith
differ-lt (suc zero) (suc y) h k = omega arith
differ-lt (suc (suc x)) y h k = absurd (omega arith)

differ-cancel : (x y z : ℕ) → x < 2 → y < 2 → z < 2 → differ x y ≡ differ x z → y ≡ z
differ-cancel zero y z h k l e = e
differ-cancel (suc zero) zero zero h k l e = refl
differ-cancel (suc zero) zero (suc z) h k l e = omega arith
differ-cancel (suc zero) (suc y) zero h k l e = omega arith
differ-cancel (suc zero) (suc y) (suc z) h k l e = omega arith
differ-cancel (suc (suc x)) y z h k l e = absurd (omega arith)

xor_digits-cancel : (n a b c : ℕ) → xor_digits n a b ≡ xor_digits n a c → b ≡ c
xor_digits-cancel zero a b c e = e
xor_digits-cancel (suc n) zero b c e = e
xor_digits-cancel (suc n) (suc a) b c e =
    let r = suc a % 2 in
    let low = differ-lt r (b % 2) (omega arith) (omega arith) in
    let low' = differ-lt r (c % 2) (omega arith) (omega arith) in
    let high = xor_digits-cancel n (suc a / 2) (b / 2) (c / 2) (omega arith) in
    let last =
      differ-cancel r (b % 2) (c % 2) (omega arith) (omega arith) (omega arith) (omega arith) in
    omega arith

xor_digits-lt : (n k a b : ℕ) → a < 2 ^ k → b < 2 ^ k → xor_digits n a b < 2 ^ k
xor_digits-lt zero k a b h l = l
xor_digits-lt (suc n) k zero b h l = l
xor_digits-lt (suc n) zero (suc a) b h l = absurd (omega arith)
xor_digits-lt (suc n) (suc k) (suc a) b h l =
    let p = pow-succ' 2 k in
    let low = differ-lt (suc a % 2) (b % 2) (omega arith) (omega arith) in
    let high = xor_digits-lt n k (suc a / 2) (b / 2) (omega arith) (omega arith) in omega arith

pub bit_xor-cancel : (a b c : ℕ) → bit_xor a b ≡ bit_xor a c → b ≡ c
bit_xor-cancel a b c e =
    xor_digits-cancel a a b c (sym (bit_xor-bitwise a b) ∙ e ∙ bit_xor-bitwise a c)

pub bit_xor-lt : (k a b : ℕ) → a < 2 ^ k → b < 2 ^ k → bit_xor a b < 2 ^ k
bit_xor-lt k a b h l = omega (arith, xor_digits-lt a k a b h l, bit_xor-bitwise a b)
