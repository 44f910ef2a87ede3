-- ===== src/Wire/Size.antt =====
-- The size field of a frame does not depend on the byte order of the machine.
use mathlib.Core.List.{reverse}
use mydak_server.Base.{
  ℕ, zero, suc, ◌+◌, ◌*◌, ◌/◌, ◌%◌, ◌^◌, ◌<◌, ◌≡◌, refl, ap, [], ◌∷◌, arith, Bytes, All, length,
}
use mydak_server.Wire.{
  Endian, from_bytes, to_bytes, store, load, byteswap, swap_if_big, message_size, size_bytes,
}

abbrev pub AreBytes : Bytes → Type 0
AreBytes = All (λ b. b < 256)

pub from_bytes-to_bytes : (n : ℕ) → n < 2 ^ 32 → from_bytes (to_bytes 4 n) ≡ n
unfolding from_bytes to_bytes
from_bytes-to_bytes n h = omega arith

pub to_bytes-from_bytes : (bs : Bytes) → AreBytes bs → to_bytes (length bs) (from_bytes bs) ≡ bs
unfolding from_bytes to_bytes
to_bytes-from_bytes [] h = refl
to_bytes-from_bytes (b ∷ bs) h =
    let low : (b + 256 * from_bytes bs) % 256 ≡ b = omega arith in
    let high : (b + 256 * from_bytes bs) / 256 ≡ from_bytes bs = omega arith in
    rw (low, high, to_bytes-from_bytes bs h.1)

pub from_bytes-lt :
    (a b c d : ℕ) → AreBytes (a ∷ b ∷ c ∷ d ∷ []) → from_bytes (a ∷ b ∷ c ∷ d ∷ []) < 2 ^ 32
unfolding from_bytes
from_bytes-lt a b c d h = omega arith

pub length-to_bytes : (k n : ℕ) → length (to_bytes k n) ≡ k
unfolding to_bytes
length-to_bytes zero n = refl
length-to_bytes (suc k) n = ap suc (length-to_bytes k (n / 256))

pub to_bytes-AreBytes : (k n : ℕ) → AreBytes (to_bytes k n)
unfolding to_bytes
to_bytes-AreBytes zero n = tt
to_bytes-AreBytes (suc k) n = (omega arith, to_bytes-AreBytes k (n / 256))

-- Storing a swapped number on a big-endian machine stores the bytes in little-endian order.
reverse-to_bytes-byteswap : (n : ℕ) → reverse (to_bytes 4 (byteswap n)) ≡ to_bytes 4 n
unfolding byteswap to_bytes
reverse-to_bytes-byteswap n =
    four (n % 256) (n / 256 % 256) (n / 256 / 256 % 256) (n / 256 / 256 / 256 % 256) (omega arith)
  where
    four :
        (a b c d : ℕ)
        → AreBytes (d ∷ c ∷ b ∷ a ∷ [])
        → reverse (to_bytes 4 (from_bytes (d ∷ c ∷ b ∷ a ∷ []))) ≡ a ∷ b ∷ c ∷ d ∷ []
    four a b c d h = ap reverse (to_bytes-from_bytes (d ∷ c ∷ b ∷ a ∷ []) h)

-- The bytes that are queued are the little-endian ones on every machine.
pub size_bytes-to_bytes : (e : Endian) (n : ℕ) → size_bytes e n ≡ to_bytes 4 n
unfolding size_bytes store swap_if_big
size_bytes-to_bytes Endian.little n = refl
size_bytes-to_bytes Endian.big n = reverse-to_bytes-byteswap n

-- So are the bytes that are read.
byteswap-from_bytes-reverse :
    (a b c d : ℕ)
    → AreBytes (a ∷ b ∷ c ∷ d ∷ [])
    → byteswap (from_bytes (d ∷ c ∷ b ∷ a ∷ [])) ≡ from_bytes (a ∷ b ∷ c ∷ d ∷ [])
unfolding byteswap
byteswap-from_bytes-reverse a b c d h =
    ap (λ t. from_bytes (reverse t)) (to_bytes-from_bytes (d ∷ c ∷ b ∷ a ∷ []) (omega arith))

pub message_size-from_bytes :
    (e : Endian) (p a b c d : ℕ) (key : Bytes)
    → AreBytes (a ∷ b ∷ c ∷ d ∷ [])
    → message_size e (p ∷ a ∷ b ∷ c ∷ d ∷ key) ≡ from_bytes (a ∷ b ∷ c ∷ d ∷ [])
unfolding message_size load swap_if_big
message_size-from_bytes Endian.little p a b c d key h = refl
message_size-from_bytes Endian.big p a b c d key h = byteswap-from_bytes-reverse a b c d h
