-- ===== src/Parameters/Refusals.antt =====
-- Which argument ends the program, and what it says, in core/parameters/parameters_accessor.cpp.
use mydak_server.Base.{
  ℕ, suc, ◌<◌, ◌≡◌, refl, sym, ap, ◌∙◌, inl, inr, ◌⊎◌, List, [], ◌∷◌, ◌++◌, Bool, Bool-cases, false,
  none, some, Option-cases, arith, Bytes, bytes_eq, bytes_eq_iff, length, leb, get_elem?, modify,
  find,
}
use mydak_server.Decimal.{pos, to_chars, is_a_number, from_chars}
use mydak_server.StaticMap.{at, index_static_map, indices_from}
use mydak_server.ParameterTable.{
  ParameterBase, NumberBase, ParameterVariants, number_parameter, string_parameter, ip_parameter,
  help_option, parameters, options,
}
use mydak_server.ParameterText.{
  Exit, helped, not_in_bounds, not_a_number, not_an_ip, wrong_format, empty_value, wrong_parameter,
  text_limits, number_limits,
}
use mydak_server.Parameters.{
  int8_max, set_number, try_set_number, number_in_limits, Processed, returns, exits, undefined,
  and_process, is_in_limits, try_set_val_internal, is_an_ip, try_set_val, visit_at, set_option,
  process_arg, process_from, process_args, split_at_equals,
}
use mydak_server.Parameters.Equals.{IsPlain, split_at_equals-none, split_at_equals-inv}
use mydak_server.Parameters.Overrides.{at-index}

and_process-exits {ℓ} :
    {A B : Type ℓ} (r : Processed A) (f : A → Processed B) (e : Exit)
    → and_process r f ≡ exits e
    → (r ≡ exits e) ⊎ ((a : A) × (r ≡ returns a) × (f a ≡ exits e))
and_process-exits (returns a) f e h = inr (a, refl, h)
and_process-exits (exits e') f e h = inl (ground arith)
and_process-exits undefined f e h = cc

-- The length of a text is out of its limits.
abbrev pub IsOutside : ParameterBase → Bytes → Exit → Type 0
IsOutside p value e =
    ((length value < p.min) ⊎ (p.max < length value)) × (e ≡ not_in_bounds value (text_limits p))

module _ (make_address : Bytes → Bool) where
  -- Why a parameter refuses a value, with the message.
  abbrev pub IsUnfit : ParameterVariants → Bytes → Exit → Type 0
  IsUnfit (number_parameter p) value e =
      (((is_a_number value ≡ false) ⊎ (from_chars int8_max value ≡ none))
        × (e ≡ not_a_number value))
      ⊎ ((n : ℕ) × (from_chars int8_max value ≡ some n)
          × (number_in_limits p (pos n) ≡ false)
          × (e ≡ not_in_bounds (to_chars n) (number_limits p)))
  IsUnfit (string_parameter p) value e = IsOutside p value e
  IsUnfit (ip_parameter p) value e =
      ((is_an_ip make_address value ≡ false) × (e ≡ not_an_ip value)) ⊎ IsOutside p value e

  -- Why an argument ends the program, with the message: it asks for help, it has no equals sign, no
  -- value, or a name that is not in the table, or its parameter refuses the value.
  pub data Refusal (raw : Bytes) (ps : List ParameterVariants) (e : Exit) : Type 0 where
    asks_help : raw ≡ help_option → e ≡ helped → Refusal raw ps e
    no_equals : IsPlain raw → e ≡ wrong_format raw → Refusal raw ps e
    no_value :
        (name : Bytes)
        → raw ≡ name ++ 61 ∷ []
        → IsPlain name
        → e ≡ empty_value name
        → Refusal raw ps e
    not_known :
        (name value : Bytes)
        → raw ≡ name ++ 61 ∷ value
        → IsPlain name
        → find name (indices_from 0 options) ≡ none
        → e ≡ wrong_parameter name
        → Refusal raw ps e
    unfit :
        (name value : Bytes) (index : ℕ) (p : ParameterVariants)
        → raw ≡ name ++ 61 ∷ value
        → IsPlain name
        → find name (indices_from 0 options) ≡ some index
        → get_elem? ps index ≡ some p
        → IsUnfit p value e
        → Refusal raw ps e

  try_set_val_internal-exits :
      (p : ParameterBase) (value : Bytes) (e : Exit)
      → try_set_val_internal p value ≡ exits e
      → IsOutside p value e
  unfolding try_set_val_internal is_in_limits
  try_set_val_internal-exits p value e h = elim (Bool-cases (leb p.min (length value))) [
    | inr short ↦ (inl (ground arith), ground arith)
    | inl enough ↦ (inr (ground arith), ground arith)
  ]

  try_set_number-exits :
      (p : NumberBase) (value : Bytes) (e : Exit)
      → try_set_number p value ≡ exits e
      → IsUnfit (number_parameter p) value e
  unfolding try_set_number set_number
  try_set_number-exits p value e h = elim (Bool-cases (is_a_number value)) [
    | inr other ↦ inl (inl other, ground arith)
    | inl number ↦ elim (Option-cases (from_chars int8_max value)) [
      | inl large ↦ inl (inr large, ground arith)
      | inr (n, read) ↦ inr (n, read, ground arith, ground arith)
    ]
  ]

  try_set_val-exits :
      (p : ParameterVariants) (value : Bytes) (e : Exit)
      → try_set_val make_address p value ≡ exits e
      → IsUnfit p value e
  unfolding try_set_val
  try_set_val-exits (number_parameter p) value e h =
      elim (and_process-exits (try_set_number p value) (λ q. returns (number_parameter q)) e h) [
        | inl bad ↦ try_set_number-exits p value e bad
        | inr (q, _, ok) ↦ absurd (ground arith)
      ]
  try_set_val-exits (string_parameter p) value e h =
      elim (and_process-exits (try_set_val_internal p value) (λ q. returns (string_parameter q)) e
        h) [
          | inl bad ↦ try_set_val_internal-exits p value e bad
          | inr (q, _, ok) ↦ absurd (ground arith)
        ]
  try_set_val-exits (ip_parameter p) value e h = elim (Bool-cases (is_an_ip make_address value)) [
    | inr other ↦ inl (other, ground arith)
    | inl address ↦
        elim (and_process-exits (try_set_val_internal p value) (λ q. returns (ip_parameter q)) e
          (ground arith)) [
            | inl bad ↦ inr (try_set_val_internal-exits p value e bad)
            | inr (q, _, ok) ↦ absurd (ground arith)
          ]
  ]

  visit_at-exits :
      (index : ℕ) (value : Bytes) (ps : List ParameterVariants) (e : Exit)
      → visit_at make_address index value ps ≡ exits e
      → (p : ParameterVariants) × (get_elem? ps index ≡ some p) × IsUnfit p value e
  unfolding visit_at
  visit_at-exits index value ps e h = elim (Option-cases (get_elem? ps index)) [
    | inl missing ↦ absurd (ground arith)
    | inr (p, found) ↦
        elim (and_process-exits (try_set_val make_address p value)
          (λ q. returns (modify (λ _. q) ps index)) e (ground arith)) [
            | inl bad ↦ (p, found, try_set_val-exits p value e bad)
            | inr (q, _, ok) ↦ absurd (ground arith)
          ]
  ]

  process_arg-exits :
      (i : ℕ) (raw : Bytes) (ps : List ParameterVariants) (e : Exit)
      → process_arg make_address i raw ps ≡ exits e
      → Refusal raw ps e
  unfolding process_arg set_option
  process_arg-exits i raw ps e h = elim (Bool-cases (bytes_eq raw help_option)) [
    | inl help ↦ Refusal.asks_help ((bytes_eq_iff raw help_option).0 help) (ground arith)
    | inr other ↦ elim (Option-cases (split_at_equals raw)) [
      | inl missing ↦ Refusal.no_equals (split_at_equals-none raw missing) (ground arith)
      | inr ((name, []), split) ↦
          let (whole, plain) = split_at_equals-inv raw name [] split in
          Refusal.no_value name whole plain (ground arith)
      | inr ((name, c ∷ cs), split) ↦
          let (whole, plain) = split_at_equals-inv raw name (c ∷ cs) split in
          elim (Option-cases (at name (index_static_map options))) [
            | inl strange ↦
                Refusal.not_known name (c ∷ cs) whole plain (sym (at-index name) ∙ strange)
                  (ground arith)
            | inr (index, known) ↦
                let (p, found, bad) = visit_at-exits index (c ∷ cs) ps e (ground arith) in
                Refusal.unfit name (c ∷ cs) index p whole plain (sym (at-index name) ∙ known) found
                  bad
          ]
    ]
  ]

  process_from-exits :
      (i : ℕ) (args : List Bytes) (ps : List ParameterVariants) (e : Exit)
      → process_from make_address i args ps ≡ exits e
      → (before : List Bytes) × (raw : Bytes) × (after : List Bytes) × (qs : List ParameterVariants)
        × (args ≡ before ++ raw ∷ after)
        × (process_from make_address i before ps ≡ returns qs)
        × Refusal raw qs e
  unfolding process_from
  process_from-exits i [] ps e h = cc
  process_from-exits i (raw ∷ args) ps e h =
      elim (and_process-exits (process_arg make_address i raw ps)
        (process_from make_address (suc i) args) e h) [
          | inl bad ↦ ([], raw, args, ps, refl, refl, process_arg-exits i raw ps e bad)
          | inr (rs, ok, later) ↦
              let (before, bad, after, qs, split, ran, why) =
                process_from-exits (suc i) args rs e later in
              (raw ∷ before, bad, after, qs, ap (λ t. raw ∷ t) split, rw ok ran, why)
        ]

  -- If the processing of a command line ends the program, then it does so at the first argument
  -- that is not accepted, for one of these reasons and with the message of that reason: the
  -- argument asks for help; it has no equals sign; it has no value; the name in front of its first
  -- equals sign is not in the table; or the value is not one for the parameter of that name, being
  -- no number or too large for its type, a number out of the limits, a text whose length is out of
  -- the limits, or no address.
  pub process_args-exits :
      (args : List Bytes) (e : Exit)
      → process_args make_address args ≡ exits e
      → (before : List Bytes) × (raw : Bytes) × (after : List Bytes) × (ps : List ParameterVariants)
        × (args ≡ before ++ raw ∷ after)
        × (process_args make_address before ≡ returns ps)
        × Refusal raw ps e
  unfolding process_args
  process_args-exits args e h = process_from-exits 1 args parameters e h
