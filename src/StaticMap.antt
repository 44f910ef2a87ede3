-- ===== src/StaticMap.antt =====
-- `static_map` of core/util/tools.hpp, an array of pairs, sorted by key, that is searched in halves,
-- and the other templates there for texts and indices.
pub mod Lookup
pub mod Sorted
pub mod Indices
use mydak_server.Base.{
  ℕ, zero, suc, ◌==◌, List, [], ◌∷◌, Bool, true, false, Option, none, some, ltb, if◌then◌else◌,
  Bytes, bytes_eq, get_elem?, find, take, length, ◌-◌, ◌++◌,
}

-- `operator<` of `std::string_view`.
unfoldable pub less : Bytes → Bytes → Bool
less a [] = false
less [] (y ∷ ys) = true
less (x ∷ xs) (y ∷ ys) = if x == y then less xs ys else ltb x y

-- The characters of a `static_string`, which end in a zero, and their `string_view`.
unfoldable pub static_string : Bytes → Bytes
static_string str = str ++ 0 ∷ []

unfoldable pub view : Bytes → Bytes
view characters = take (length characters - 1) characters

-- `operator==`, `operator<` and `operator>` of a `static_string` and a text.
unfoldable pub is_same : Bytes → Bytes → Bool
unfolding view
is_same characters text = bytes_eq (view characters) text

unfoldable pub is_below : Bytes → Bytes → Bool
unfolding view
is_below characters text = less (view characters) text

unfoldable pub is_above : Bytes → Bytes → Bool
unfolding view
is_above characters text = less text (view characters)

module _ {ℓ} {T : Type ℓ} where
  unfoldable pub insert : Bytes × T → List (Bytes × T) → List (Bytes × T)
  insert p [] = p ∷ []
  insert p (q ∷ qs) = if less q.0 p.0 then q ∷ insert p qs else p ∷ q ∷ qs

  -- The constructor sorts its pairs. The keys that the program gives it are distinct, so that the
  -- order in which `std::ranges::sort` leaves equal keys is not seen.
  unfoldable pub static_map : List (Bytes × T) → List (Bytes × T)
  unfolding insert
  static_map [] = []
  static_map (p ∷ ps) = insert p (static_map ps)

  -- `std::lower_bound`: the first pair whose key is not less.
  unfoldable pub lower_bound : Bytes → List (Bytes × T) → Option (Bytes × T)
  lower_bound key [] = none
  lower_bound key (p ∷ ps) = if less p.0 key then lower_bound key ps else some p

  unfoldable pub if_key : Bytes → Bytes × T → Option T
  if_key key p = if bytes_eq p.0 key then some p.1 else none

  unfoldable pub at : Bytes → List (Bytes × T) → Option T
  unfolding if_key
  at key array = elim (lower_bound key array) [ none ↦ none | some p ↦ if_key key p ]

  -- At compile time, with a `static_string` for the key; `none` is the exception that stops the
  -- compiler.
  unfoldable pub lower_bound_string : Bytes → List (Bytes × T) → Option (Bytes × T)
  lower_bound_string key [] = none
  lower_bound_string key (p ∷ ps) = if is_above key p.0 then lower_bound_string key ps else some p

  unfoldable pub if_string : Bytes → Bytes × T → Option T
  if_string key p = if is_same key p.0 then some p.1 else none

  unfoldable pub consteval_at : Bytes → List (Bytes × T) → Option T
  unfolding lower_bound_string if_string
  consteval_at key array = elim (lower_bound_string key array) [
    | none ↦ none
    | some p ↦ if_string key p
  ]

-- `at<N, Sequence>::value`; `none` does not compile.
unfoldable pub type_at : ℕ → List ℕ → Option ℕ
type_at n sequence = get_elem? sequence n

-- `index_static_map`: each name with its place.
unfoldable pub indices_from : ℕ → List Bytes → List (Bytes × ℕ)
indices_from i [] = []
indices_from i (name ∷ names) = (name, i) ∷ indices_from (suc i) names

unfoldable pub index_static_map : List Bytes → List (Bytes × ℕ)
unfolding indices_from
index_static_map names = static_map (indices_from 0 names)

-- `index_map` and `index_unordered_map` put the names into a map with their places. A name that is
-- in the map is left as it is.
unfoldable pub emplace : Bytes → ℕ → List (Bytes × ℕ) → List (Bytes × ℕ)
emplace name i m = elim (find name m) [ none ↦ m ++ (name, i) ∷ [] | some j ↦ m ]

unfoldable pub index_map_from : ℕ → List Bytes → List (Bytes × ℕ) → List (Bytes × ℕ)
unfolding emplace
index_map_from i [] m = m
index_map_from i (name ∷ names) m = index_map_from (suc i) names (emplace name i m)

unfoldable pub index_map_template : List Bytes → List (Bytes × ℕ)
unfolding index_map_from
index_map_template names = index_map_from 0 names []

-- `constexpr_index_array`: the numbers from `i` on.
unfoldable pub indices : ℕ → ℕ → List ℕ
indices i zero = []
indices i (suc n) = i ∷ indices (suc i) n

unfoldable pub constexpr_index_array : ℕ → List ℕ
unfolding indices
constexpr_index_array n = indices 0 n

-- A fold over the indices: what `func` does to the state, from the first index on.
unfoldable pub for_each {ℓ} : {S : Type ℓ} → (ℕ → S → S) → List ℕ → S → S
for_each func [] s = s
for_each func (i ∷ is) s = for_each func is (func i s)

unfoldable pub constexpr_for {ℓ} : {S : Type ℓ} → ℕ → (ℕ → S → S) → S → S
unfolding constexpr_index_array for_each
constexpr_for n func s = for_each func (constexpr_index_array n) s
