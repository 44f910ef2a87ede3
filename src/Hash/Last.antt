-- ===== src/Hash/Last.antt =====
-- Which keys the hash of core/util/tools.hpp tells apart.
use mydak_server.Base.{
  ℕ, ◌+◌, ◌*◌, ◌/◌, ◌%◌, ◌^◌, ◌<◌, ◌≡◌, ◌≢◌, refl, [], ◌∷◌, ◌++◌, arith, Bytes, word,
}
use mydak_server.Hash.{mix, internal_hash, hasher, golden_ratio}
use mydak_server.Hash.Digits.{bit_xor-cancel, bit_xor-lt}

module _ (hash_char : ℕ → ℕ) where
  mix-lt : (hash c : ℕ) → hash < word → mix hash_char hash c < word
  unfolding mix
  mix-lt hash c h =
      bit_xor-lt 64 hash ((hash_char c + golden_ratio + hash * 2 ^ 6 % word + hash / 2 ^ 2) % word)
        h (omega arith)

  internal_hash-lt : (hash : ℕ) (cs : Bytes) → hash < word → internal_hash hash_char hash cs < word
  unfolding internal_hash
  internal_hash-lt hash [] h = h
  internal_hash-lt hash (c ∷ cs) h = internal_hash-lt (mix hash_char hash c) cs (mix-lt hash c h)

  internal_hash-append :
      (hash : ℕ) (xs : Bytes) (c : ℕ)
      → internal_hash hash_char hash (xs ++ c ∷ [])
        ≡ mix hash_char (internal_hash hash_char hash xs) c
  unfolding internal_hash
  internal_hash-append hash [] c = refl
  internal_hash-append hash (x ∷ xs) c = internal_hash-append (mix hash_char hash x) xs c

  mix-cancel :
      (hash c c' : ℕ)
      → hash_char c < word
      → hash_char c' < word
      → mix hash_char hash c ≡ mix hash_char hash c'
      → hash_char c ≡ hash_char c'
  unfolding mix
  mix-cancel hash c c' h h' e = let same = bit_xor-cancel hash _ _ e in omega arith

  -- If the hashes of two characters are different and below 2^64, then two keys that are the same
  -- but for these last characters have different hashes, and the hash of the first is below 2^64.
  pub hasher-append :
      (xs : Bytes) (c c' : ℕ)
      → hash_char c < word
      → hash_char c' < word
      → hash_char c ≢ hash_char c'
      → (hasher hash_char (xs ++ c ∷ []) < word)
        × (hasher hash_char (xs ++ c ∷ []) ≢ hasher hash_char (xs ++ c' ∷ []))
  unfolding hasher
  hasher-append xs c c' h h' differ = (
    internal_hash-lt 0 (xs ++ c ∷ []) (omega arith),
    λ e. differ (
        mix-cancel (internal_hash hash_char 0 xs) c c' h h'
          (ground (arith, internal_hash-append 0 xs c, internal_hash-append 0 xs c'))),
  )
