-- ===== src/Parameters/Typing.antt =====
-- The types of the parameters, in core/parameters/parameters.hpp and parameters_accessor.cpp.
use mathlib.Core.Path.{subst}
use mydak_server.Base.{
  Bool, length, ◌<◌, ◌+◌, bytes_eq, get_elem?_total, ==_iff, ℕ, zero, suc, ◌≡◌, refl, sym, ap, ◌∙◌,
  inl, inr, Bool-cases, ◌≢◌, List, [], ◌∷◌, some, Option-cases, arith, Bytes, ◌>>=◌, get_elem?,
  modify, map, find,
}
use mydak_server.StaticMap.Indices.{consteval_at-static_string}
use mydak_server.StaticMap.{
  consteval_at, static_string, type_at, at, index_static_map, indices_from,
}
use mydak_server.ParameterTable.{
  ParameterVariants, number_parameter, string_parameter, ip_parameter, type_small_number,
  type_string, type_ip, options, parameters, type_sequence,
}
use mydak_server.Parameters.{
  Processed, returns, and_process, try_set_val_internal, try_set_val, is_an_ip, visit_at,
  set_option, process_arg, try_set_number, process_from, process_args, split_at_equals,
}
use mydak_server.Parameters.Limits.{and_process-inv}
use mydak_server.Parameters.Overrides.{at-index}
use mydak_server.Parameters.Access.{Value, variant_index, get_data, get_alternative, get_at, get}

-- The parameters have the types that the table gives them.
abbrev IsTyped : List ParameterVariants → Type 0
IsTyped ps = map variant_index ps ≡ type_sequence

map-modify :
    (ps : List ParameterVariants) (i : ℕ) (p q : ParameterVariants)
    → get_elem? ps i ≡ some p
    → variant_index q ≡ variant_index p
    → map variant_index (modify (λ _. q) ps i) ≡ map variant_index ps
map-modify [] i p q at same = cc
map-modify (x ∷ ps) zero p q at same = ground arith
map-modify (x ∷ ps) (suc i) p q at same = ap (◌∷◌ (variant_index x)) (map-modify ps i p q at same)

get_elem?-map :
    (ps : List ParameterVariants) (i type : ℕ)
    → get_elem? (map variant_index ps) i ≡ some type
    → (p : ParameterVariants) × (get_elem? ps i ≡ some p) × (variant_index p ≡ type)
get_elem?-map [] i type e = cc
get_elem?-map (p ∷ ps) zero type e = (p, refl, ground arith)
get_elem?-map (p ∷ ps) (suc i) type e = get_elem?-map ps i type e

-- At compile time the same is found.
consteval_at-index :
    (option : Bytes)
    → consteval_at (static_string option) (index_static_map options)
      ≡ find option (indices_from 0 options)
consteval_at-index option =
    consteval_at-static_string option (index_static_map options) ∙ at-index option

-- A value of a type that is not a number is a text.
get_data-text :
    (p : ParameterVariants)
    → variant_index p ≢ type_small_number
    → (text : Bytes) × (get_data p ≡ Value.text_value text)
unfolding variant_index get_data
get_data-text (number_parameter p) h = absurd (h refl)
get_data-text (string_parameter p) h = (p.text, refl)
get_data-text (ip_parameter p) h = (p.text, refl)

-- The types of the table.
table_types : (n type : ℕ) → get_elem? type_sequence n ≡ some type → type ≢ type_small_number
unfolding type_sequence
table_types zero type e = ground arith
table_types (suc zero) type e = ground arith
table_types (suc (suc zero)) type e = ground arith
table_types (suc (suc (suc n))) type e = cc

find-indices_from :
    (k : Bytes) (names : List Bytes) (i n : ℕ)
    → find k (indices_from i names) ≡ some n
    → n < i + length names
unfolding find indices_from
find-indices_from k [] i n h = cc
find-indices_from k (name ∷ names) i n h = elim (Bool-cases (bytes_eq name k)) [
  | inl same ↦ ground arith
  | inr other ↦ omega (arith, find-indices_from k names (suc i) n (ground arith))
]

table_has :
    (option : Bytes) (n : ℕ)
    → find option (indices_from 0 options) ≡ some n
    → (type : ℕ) × (get_elem? type_sequence n ≡ some type)
unfolding type_sequence options
table_has option n found =
    let inside : n < 3 = omega (arith, find-indices_from option options 0 n found) in
    get_elem?_total type_sequence n inside

module _ (make_address : Bytes → Bool) where
  wrapped :
      {A : Type 0} (c : A → ParameterVariants) (type : ℕ) (r : Processed A) (q : ParameterVariants)
      → ((a : A) → variant_index (c a) ≡ type)
      → and_process r (λ a. returns (c a)) ≡ returns q
      → variant_index q ≡ type
  wrapped c type r q h e =
      let (a, _, done) = and_process-inv r (λ a. returns (c a)) q e in
      let same : c a ≡ q = ground arith in ap variant_index (sym same) ∙ h a

  try_set_val-variant_index :
      (p q : ParameterVariants) (value : Bytes)
      → try_set_val make_address p value ≡ returns q
      → variant_index q ≡ variant_index p
  unfolding try_set_val variant_index
  try_set_val-variant_index (number_parameter p) q value h =
      wrapped number_parameter type_small_number (try_set_number p value) q (λ a. refl) h
  try_set_val-variant_index (string_parameter p) q value h =
      wrapped string_parameter type_string (try_set_val_internal p value) q (λ a. refl) h
  try_set_val-variant_index (ip_parameter p) q value h =
      elim (Bool-cases (is_an_ip make_address value)) [
        | inl address ↦
            wrapped ip_parameter type_ip (try_set_val_internal p value) q (λ a. refl) (ground arith)
        | inr other ↦ absurd (ground arith)
      ]

  visit_at-IsTyped :
      (index : ℕ) (value : Bytes) (ps qs : List ParameterVariants)
      → IsTyped ps
      → visit_at make_address index value ps ≡ returns qs
      → IsTyped qs
  unfolding visit_at
  visit_at-IsTyped index value ps qs t h = elim (Option-cases (get_elem? ps index)) [
    | inl missing ↦ absurd (ground arith)
    | inr (p, found) ↦
        let (q, set, done) =
          and_process-inv (try_set_val make_address p value)
            (λ q. returns (modify (λ _. q) ps index)) qs (ground arith) in
        let e : modify (λ _. q) ps index ≡ qs = ground arith in
        subst IsTyped e
          (map-modify ps index p q found (try_set_val-variant_index p q value set) ∙ t)
  ]

  process_arg-IsTyped :
      (i : ℕ) (raw : Bytes) (ps qs : List ParameterVariants)
      → IsTyped ps
      → process_arg make_address i raw ps ≡ returns qs
      → IsTyped qs
  unfolding process_arg set_option
  process_arg-IsTyped i raw ps qs t h = elim (Option-cases (split_at_equals raw)) [
    | inl no_equals ↦ absurd (ground arith)
    | inr ((name, value), split) ↦ elim (Option-cases (at name (index_static_map options))) [
      | inl unknown ↦ absurd (ground arith)
      | inr (index, known) ↦ visit_at-IsTyped index value ps qs t (ground arith)
    ]
  ]

  process_from-IsTyped :
      (i : ℕ) (args : List Bytes) (ps qs : List ParameterVariants)
      → IsTyped ps
      → process_from make_address i args ps ≡ returns qs
      → IsTyped qs
  unfolding process_from
  process_from-IsTyped i [] ps qs t h = let e : ps ≡ qs = ground arith in subst IsTyped e t
  process_from-IsTyped i (raw ∷ args) ps qs t h =
      let (rs, set, rest) =
        and_process-inv (process_arg make_address i raw ps) (process_from make_address (suc i) args)
          qs h in
      process_from-IsTyped (suc i) args rs qs (process_arg-IsTyped i raw ps rs t set) rest

  parameters-IsTyped : IsTyped parameters
  unfolding parameters type_sequence variant_index
  parameters-IsTyped = refl

  -- If the command line is accepted, then getting the value of an option of the table by the type
  -- that the table names for it throws no exception and gives the value of the parameter at the
  -- option's place, which is a text.
  pub get-process_args :
      (args : List Bytes) (ps : List ParameterVariants) (option : Bytes) (n : ℕ)
      → process_args make_address args ≡ returns ps
      → find option (indices_from 0 options) ≡ some n
      → (p : ParameterVariants) × (text : Bytes) × (get_elem? ps n ≡ some p)
        × (get option ps ≡ some (get_data p))
        × (get_data p ≡ Value.text_value text)
  unfolding process_args get get_at get_alternative type_at
  get-process_args args ps option n accepted known =
      let (type, e) = table_has option n known in
      let typed = process_from-IsTyped 1 args parameters ps parameters-IsTyped accepted in
      let (p, found, same) = get_elem?-map ps n type (ap (λ ts. get_elem? ts n) typed ∙ e) in
      let (text, is_text) = get_data-text p (λ number. table_types n type e (sym same ∙ number)) in
      (
        p,
        text,
        found,
        rw
            (
              consteval_at-index option,
              known,
              ◌>>=◌,
              e,
              found,
              (==_iff (variant_index p) type).1 same,
            )
            refl,
        is_text,
      )
