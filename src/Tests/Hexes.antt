-- ===== src/Tests/Hexes.antt =====
-- Conversions to hexadecimal text and back, with functions in place of libsodium.
use mydak_server.Base.{
  ℕ, ◌+◌, ◌*◌, ◌/◌, ◌%◌, ◌<◌, ◌≡◌, refl, [], ◌∷◌, ◌++◌, none, some, Option, ltb, leb, if◌then◌else◌,
  arith, Bytes, All, length,
}
use mydak_server.Hex.{Sodium, converts, ends, no_hex, bin2hex, bin2hex_string, hex2bin}
use mydak_server.Hex.RoundTrip.{digit, Spells, Reads, IsSodium, hex2bin-bin2hex_string}

abbrev letter : ℕ → ℕ
letter n = if ltb n 10 then 48 + n else 87 + n

abbrev encode : Bytes → Bytes
encode [] = []
encode (b ∷ bin) = letter (b / 16) ∷ letter (b % 16) ∷ encode bin

abbrev byte_of : Option ℕ → Option ℕ → Bytes → Bytes
byte_of (some h) (some l) bin = (h * 16 + l) ∷ bin
byte_of _ _ bin = []

abbrev decode : Bytes → Bytes
decode [] = []
decode (h ∷ []) = []
decode (h ∷ l ∷ hex) = byte_of (digit h) (digit l) (decode hex)

digit-letter : (n : ℕ) → n < 16 → digit (letter n) ≡ some n
digit-letter n small = ground arith

length-encode : (bin : Bytes) → length (encode bin) ≡ length bin * 2
length-encode [] = refl
length-encode (b ∷ bin) = omega (arith, length-encode bin)

encode-Spells : (bin : Bytes) → All (λ (b : ℕ). b < 256) bin → Spells (encode bin) bin
encode-Spells [] h = tt
encode-Spells (b ∷ bin) h = (
  digit-letter (b / 16) (let s = h.0 in omega arith),
  digit-letter (b % 16) (omega arith),
  encode-Spells bin h.1,
)

byte_of_digits :
    (b high low : ℕ) (bin rest : Bytes) (h l : Option ℕ)
    → h ≡ some high
    → l ≡ some low
    → b ≡ high * 16 + low
    → rest ≡ bin
    → byte_of h l rest ≡ b ∷ bin
byte_of_digits b high low bin rest h l p q e same = ground arith

decode-Reads : (hex bin : Bytes) → Reads hex bin → decode hex ≡ bin
decode-Reads [] [] h = refl
decode-Reads [] (b ∷ bin) h = absurd h
decode-Reads (x ∷ []) [] h = absurd h
decode-Reads (x ∷ []) (b ∷ bin) h = absurd h
decode-Reads (x ∷ y ∷ hex) [] h = absurd h
decode-Reads (x ∷ y ∷ hex) (b ∷ bin) h =
    let (high, low, p, q, e, rest) = h in
    byte_of_digits b high low bin (decode hex) (digit x) (digit y) p q e (decode-Reads hex bin rest)

abbrev library : Sodium
library = record {
  sodium_bin2hex =
      λ bin size. if ltb (length bin * 2) size then some (encode bin ++ 0 ∷ []) else none;
  sodium_hex2bin = λ hex size. if leb (length (decode hex)) size then some (decode hex) else none;
}

library-IsSodium : IsSodium library
library-IsSodium = record {
  encodes =
      λ bin size bytes room. (encode bin, ground arith, length-encode bin, encode-Spells bin bytes);
  decodes = λ hex bin size h fits. ground (arith, decode-Reads hex bin h);
}

hex2bin-bin2hex_string_example :
    (hex : Bytes) × (bin2hex_string library (10 ∷ 255 ∷ []) ≡ converts hex)
    × (hex2bin library 2 hex ≡ converts (10 ∷ 255 ∷ []))
    × (bin2hex library (10 ∷ 255 ∷ []) ≡ ends no_hex)
hex2bin-bin2hex_string_example =
    hex2bin-bin2hex_string library (10 ∷ 255 ∷ []) library-IsSodium (omega arith)
