-- ===== src/StaticMap/Lookup.antt =====
-- The search of the static map in core/util/tools.hpp finds what a walk through the pairs finds.
use mydak_server.Base.{
  ◌≡◌, refl, ap, ◌∙◌, List, [], ◌∷◌, true, false, some, arith, if◌then◌else◌, Bytes, bytes_eq,
  bytes_eq_iff, find,
}
use mydak_server.StaticMap.{less, insert, static_map, lower_bound, at, if_key}

pub less_irrefl : (a : Bytes) → less a a ≡ false
unfolding less
less_irrefl [] = refl
less_irrefl (x ∷ xs) = ground (arith, less_irrefl xs)

pub less_antisym : (a b : Bytes) → less a b ≡ false → less b a ≡ false → a ≡ b
unfolding less
less_antisym [] [] h k = refl
less_antisym [] (y ∷ ys) h k = cc
less_antisym (x ∷ xs) [] h k = cc
less_antisym (x ∷ xs) (y ∷ ys) h k = ground (arith, less_antisym xs ys)

-- What is above a key that is above another is not below the other.
pub less_above : (a b c : Bytes) → less a b ≡ true → less c b ≡ false → less c a ≡ false
unfolding less
less_above a [] c h k = cc
less_above [] (y ∷ ys) c h k = ground arith
less_above (x ∷ xs) (y ∷ ys) [] h k = cc
less_above (x ∷ xs) (y ∷ ys) (z ∷ zs) h k = ground (arith, less_above xs ys zs)

module _ {ℓ} {T : Type ℓ} where
  -- The head of an array that is not below the key settles the search.
  at-insert :
      (key : Bytes) (p : Bytes × T) (qs : List (Bytes × T))
      → at key (insert p qs) ≡ (if bytes_eq p.0 key then some p.1 else at key qs)
  unfolding at lower_bound insert if_key
  at-insert key p [] = ground (arith, less_irrefl key, bytes_eq_iff p.0 key)
  at-insert key p (q ∷ qs) = ground (
    arith,
    at-insert key p qs,
    less_irrefl key,
    less_antisym p.0 key,
    less_above key p.0 q.0,
    bytes_eq_iff p.0 key,
    bytes_eq_iff q.0 key,
  )

  -- Looking a key up in the static map made of some pairs, by its lower bound in the sorted array,
  -- finds what a search through the pairs in their order finds.
  pub at-static_map :
      (key : Bytes) (pairs : List (Bytes × T)) → at key (static_map pairs) ≡ find key pairs
  unfolding static_map at lower_bound find
  at-static_map key [] = refl
  at-static_map key ((k, v) ∷ pairs) =
      at-insert key (k, v) (static_map pairs)
      ∙ ap (λ r. if bytes_eq k key then some v else r) (at-static_map key pairs)
