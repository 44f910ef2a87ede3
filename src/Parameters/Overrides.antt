-- ===== src/Parameters/Overrides.antt =====
-- The last value of an option wins, in core/parameters.
use mathlib.Core.Path.{fun_ext}
use mydak_server.Base.{
  ℕ, suc, ◌+◌, ◌<◌, ◌≡◌, ◌≢◌, refl, sym, ap, ◌∙◌, List, [], ◌∷◌, ◌++◌, Bool, none, some, arith,
  Bytes, bytes_eq_iff, length, get_elem?, modify, find, All,
}
use mydak_server.StaticMap.{at, index_static_map, indices_from}
use mydak_server.StaticMap.Lookup.{at-static_map}
use mydak_server.ParameterTable.{ParameterVariants, options, help_option}
use mydak_server.Parameters.{
  Processed, returns, exits, undefined, and_process, try_set_val, visit_at, set_option, process_arg,
  process_from, process_args, split_at_equals,
}

-- Text in front of the first `=` has none.
split-append :
    (name value : Bytes)
    → All (λ (c : ℕ). c ≢ 61) name
    → split_at_equals (name ++ 61 ∷ value) ≡ some (name, value)
unfolding split_at_equals
split-append [] value h = refl
split-append (c ∷ name) value h = ground (arith, split-append name value h.1, h.0)

not_help : (name value : Bytes) → All (λ (c : ℕ). c ≢ 61) name → (name ++ 61 ∷ value) ≢ help_option
unfolding split_at_equals
not_help name value h e =
    let no_equals : split_at_equals help_option ≡ none = refl in
    cc (split-append name value h, ap split_at_equals e, no_equals)

-- The index of an option is its place in the table.
pub at-index :
    (name : Bytes) → at name (index_static_map options) ≡ find name (indices_from 0 options)
unfolding index_static_map
at-index name = at-static_map name (indices_from 0 options)

and_process_assoc {ℓ} :
    {A B C : Type ℓ} (r : Processed A) (f : A → Processed B) (g : B → Processed C)
    → and_process (and_process r f) g ≡ and_process r (λ a. and_process (f a) g)
and_process_assoc (returns a) f g = refl
and_process_assoc (exits e) f g = refl
and_process_assoc undefined f g = refl

and_process_returns {ℓ} : {A : Type ℓ} (r : Processed A) → and_process r returns ≡ r
and_process_returns (returns a) = refl
and_process_returns (exits e) = refl
and_process_returns undefined = refl

module _ (make_address : Bytes → Bool) where
  process_from-append :
      (i : ℕ) (args : List Bytes) (raw : Bytes) (ps : List ParameterVariants)
      → process_from make_address i (args ++ raw ∷ []) ps
        ≡ and_process
            (process_from make_address i args ps)
            (process_arg make_address (length args + i) raw)
  unfolding process_from
  process_from-append i [] raw ps =
      and_process_returns (process_arg make_address i raw ps)
      ∙ ap (λ k. process_arg make_address k raw ps) (omega arith)
  process_from-append i (x ∷ args) raw ps =
      ap (and_process (process_arg make_address i x ps)) (
        fun_ext (λ qs.
          process_from-append (suc i) args raw qs
          ∙ ap
              (λ k.
                and_process (process_from make_address (suc i) args qs)
                  (process_arg make_address k raw))
              (omega arith)))
      ∙ sym (
          and_process_assoc (process_arg make_address i x ps)
            (process_from make_address (suc i) args)
            (process_arg make_address (suc (length args) + i) raw))

  process_arg-set :
      (i index : ℕ) (name value : Bytes) (p q : ParameterVariants) (ps : List ParameterVariants)
      → i < 128
      → All (λ (c : ℕ). c ≢ 61) name
      → find name (indices_from 0 options) ≡ some index
      → get_elem? ps index ≡ some p
      → 0 < length value
      → try_set_val make_address p value ≡ returns q
      → process_arg make_address i (name ++ 61 ∷ value) ps ≡ returns (modify (λ _. q) ps index)
  unfolding process_arg set_option visit_at
  process_arg-set i index name value p q ps room plain known here full set = ground (
    arith,
    split-append name value plain,
    at-index name,
    not_help name value plain,
    bytes_eq_iff (name ++ 61 ∷ value) help_option,
  )

  -- If a command line of fewer than 127 arguments is accepted, then adding the argument of an
  -- option of the table, its name without an equals sign and a value that is not empty and that its
  -- parameter accepts, gives the same parameters but for that one, which has the new value: the
  -- last value of an option wins.
  pub process_args-append :
      (args : List Bytes) (index : ℕ) (name value : Bytes) (p q : ParameterVariants)
      (ps : List ParameterVariants)
      → length args < 127
      → All (λ (c : ℕ). c ≢ 61) name
      → find name (indices_from 0 options) ≡ some index
      → process_args make_address args ≡ returns ps
      → get_elem? ps index ≡ some p
      → 0 < length value
      → try_set_val make_address p value ≡ returns q
      → process_args make_address (args ++ (name ++ 61 ∷ value) ∷ [])
        ≡ returns (modify (λ _. q) ps index)
  unfolding process_args
  process_args-append args index name value p q ps room plain known before here full set =
      process_from-append 1 args (name ++ 61 ∷ value) _
      ∙ ap (λ r. and_process r (process_arg make_address (length args + 1) (name ++ 61 ∷ value)))
          before
      ∙ process_arg-set (length args + 1) index name value p q ps (omega arith) plain known here
          full set
