-- ===== src/Hex/RoundTrip.antt =====
-- What libsodium documents of its conversions, and those of core/util/tools.hpp.
use mydak_server.Base.{
  ℕ, ◌+◌, ◌*◌, ◌/◌, ◌%◌, ◌<◌, ◌≤◌, ◌≡◌, [], ◌∷◌, ◌++◌, none, some, Option, leb, ◌&&◌, ◌-◌,
  if◌then◌else◌, arith, Bytes, All, length, take, take-append,
}
use mydak_server.Hex.{
  Sodium, converts, ends, no_hex, bin2hex_into, bin2hex, bin2hex_string, hex2bin_into, hex2bin,
}

-- The value of a hexadecimal digit.
abbrev pub digit : ℕ → Option ℕ
digit c =
    if leb 48 c && leb c 57
    then some (c - 48)
    else if leb 97 c && leb c 102
    then some (c - 87)
    else if leb 65 c && leb c 70
    then some (c - 55)
    else none

-- Each byte is written as its high half and its low half.
abbrev pub Spells : Bytes → Bytes → Type 0
Spells [] [] = Unit
Spells (h ∷ l ∷ hex) (b ∷ bin) =
    (digit h ≡ some (b / 16)) × (digit l ≡ some (b % 16)) × Spells hex bin
Spells _ _ = ⊥

-- Each two digits are read as a byte.
abbrev pub Reads : Bytes → Bytes → Type 0
Reads [] [] = Unit
Reads (h ∷ l ∷ hex) (b ∷ bin) =
    (high low : ℕ) × (digit h ≡ some high)
    × (digit l ≡ some low)
    × (b ≡ high * 16 + low)
    × Reads hex bin
Reads _ _ = ⊥

pub record IsSodium (s : Sodium) : Type 0 where
  pub encodes :
      (bin : Bytes) (size : ℕ)
      → All (λ (b : ℕ). b < 256) bin
      → length bin * 2 < size
      → (hex : Bytes) × (s.sodium_bin2hex bin size ≡ some (hex ++ 0 ∷ []))
        × (length hex ≡ length bin * 2)
        × Spells hex bin
  pub decodes :
      (hex bin : Bytes) (size : ℕ)
      → Reads hex bin
      → length bin ≤ size
      → s.sodium_hex2bin hex size ≡ some bin

Spells-Reads : (hex bin : Bytes) → Spells hex bin → Reads hex bin
Spells-Reads [] [] h = tt
Spells-Reads (x ∷ y ∷ hex) (b ∷ bin) h =
    (b / 16, b % 16, h.0, h.1, omega arith, Spells-Reads hex bin h.2)
Spells-Reads [] (b ∷ bin) h = absurd h
Spells-Reads (x ∷ []) [] h = absurd h
Spells-Reads (x ∷ []) (b ∷ bin) h = absurd h
Spells-Reads (x ∷ y ∷ hex) [] h = absurd h

-- If libsodium behaves as documented, then bin2hex_string gives a text for any bytes, and hex2bin
-- gives these bytes for that text; but bin2hex ends the program for them.
pub hex2bin-bin2hex_string :
    (s : Sodium) (bin : Bytes)
    → IsSodium s
    → All (λ (b : ℕ). b < 256) bin
    → (hex : Bytes) × (bin2hex_string s bin ≡ converts hex)
      × (hex2bin s (length bin) hex ≡ converts bin)
      × (bin2hex s bin ≡ ends no_hex)
unfolding bin2hex_string hex2bin hex2bin_into bin2hex bin2hex_into
hex2bin-bin2hex_string s bin h bytes =
    let (hex, wrote, long, spelt) = h.encodes bin (length bin * 2 + 1) bytes (omega arith) in
    let text : take (length bin * 2) (hex ++ 0 ∷ []) ≡ hex =
      rw (← long) (take-append hex (0 ∷ [])) in
    (
      hex,
      ground (arith, wrote, text),
      ground (arith, h.decodes hex bin (length bin) (Spells-Reads hex bin spelt) (omega arith)),
      ground (arith, wrote),
    )
