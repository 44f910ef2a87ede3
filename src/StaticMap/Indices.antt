-- ===== src/StaticMap/Indices.antt =====
-- The maps from names to their places in core/util/tools.hpp agree, and so do the searches at run time
-- and at compile time.
use mydak_server.Base.{
  ℕ, suc, ◌-◌, ◌≡◌, refl, sym, ap, ◌∙◌, List, [], ◌∷◌, ◌++◌, Option, none, some, arith, Bytes,
  bytes_eq, bytes_eq_iff, find, if◌then◌else◌, take-append, length, length-append,
}
use mydak_server.StaticMap.{
  static_string, view, is_above, is_same, lower_bound, lower_bound_string, if_key, if_string, at,
  consteval_at, emplace, index_map_from, index_map_template, indices_from, index_static_map,
}
use mydak_server.StaticMap.Sorted.{IsDistinct, IsSortOf, at-IsSortOf}

-- The view of a string is its text.
view-static_string : (str : Bytes) → view (static_string str) ≡ str
unfolding view static_string
view-static_string str =
    let n : length (str ++ 0 ∷ []) - 1 ≡ length str = omega (arith, length-append str (0 ∷ [])) in
    rw n (take-append str (0 ∷ []))

module _ {ℓ} {T : Type ℓ} where
  lower_bound-static_string :
      (key : Bytes) (array : List (Bytes × T))
      → lower_bound_string (static_string key) array ≡ lower_bound key array
  unfolding lower_bound lower_bound_string is_above
  lower_bound-static_string key [] = refl
  lower_bound-static_string key (p ∷ ps) =
      rw (view-static_string key, lower_bound-static_string key ps) refl

  abbrev found : (Bytes × T → Option T) → Option (Bytes × T) → Option T
  found f r = elim r [ none ↦ none | some p ↦ f p ]

  found-static_string :
      (key : Bytes) (r : Option (Bytes × T))
      → found (if_string (static_string key)) r ≡ found (if_key key) r
  unfolding if_key if_string is_same
  found-static_string key none = refl
  found-static_string key (some p) =
      ground (arith, view-static_string key, bytes_eq_iff p.0 key, bytes_eq_iff key p.0)

  -- The search at compile time finds what the search at run time finds.
  pub consteval_at-static_string :
      (key : Bytes) (array : List (Bytes × T))
      → consteval_at (static_string key) array ≡ at key array
  unfolding consteval_at at
  consteval_at-static_string key array =
      ap (found (if_string (static_string key))) (lower_bound-static_string key array)
      ∙ found-static_string key (lower_bound key array)

find-append_one :
    (key name : Bytes) (i : ℕ) (m : List (Bytes × ℕ))
    → find key (m ++ (name, i) ∷ [])
      ≡ elim (find key m) [ some j ↦ some j | none ↦ if bytes_eq name key then some i else none ]
unfolding find
find-append_one key name i [] = refl
find-append_one key name i (p ∷ m) = ground (arith, find-append_one key name i m)

-- A map to which a name is added.
find-emplace :
    (key name : Bytes) (i : ℕ) (m : List (Bytes × ℕ))
    → find key (emplace name i m)
      ≡ elim (find key m) [ some j ↦ some j | none ↦ if bytes_eq name key then some i else none ]
unfolding emplace
find-emplace key name i m = ground (arith, find-append_one key name i m, bytes_eq_iff name key)

find-index_map_from :
    (key : Bytes) (i : ℕ) (names : List Bytes) (m : List (Bytes × ℕ))
    → find key (index_map_from i names m)
      ≡ elim (find key m) [ some j ↦ some j | none ↦ find key (indices_from i names) ]
unfolding index_map_from indices_from find
find-index_map_from key i [] m = ground arith
find-index_map_from key i (name ∷ names) m =
    ground
      (arith, find-index_map_from key (suc i) names (emplace name i m), find-emplace key name i m)

-- For names of which no two are the same, any sorted array of them with their places, as the one of
-- the index map is modelled with is too, and any key: the map that the names are put into one after
-- the other, the array that is searched in halves at run time, and the array searched at compile
-- time with a static string for the key, all give the same place for the key, or none.
pub index_maps_agree :
    (key : Bytes) (names : List Bytes) (array : List (Bytes × ℕ))
    → IsDistinct (indices_from 0 names)
    → IsSortOf (indices_from 0 names) array
    → (find key (index_map_template names) ≡ at key array)
      × (consteval_at (static_string key) array ≡ find key (index_map_template names))
      × IsSortOf (indices_from 0 names) (index_static_map names)
unfolding index_map_template index_static_map find
index_maps_agree key names array distinct sorted =
    let (found, is_one) = at-IsSortOf key (indices_from 0 names) array distinct sorted in
    let agree : find key (index_map_template names) ≡ at key array =
      find-index_map_from key 0 names [] ∙ sym found in
    (agree, consteval_at-static_string key array ∙ sym agree, is_one)
