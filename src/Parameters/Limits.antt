-- ===== src/Parameters/Limits.antt =====
-- What the program gets from its command line in core/parameters: values within their limits.
use mathlib.Core.Path.{subst}
use mydak_server.Base.{
  ℕ, zero, suc, ◌≤◌, ◌≡◌, refl, inl, inr, List, [], ◌∷◌, Bool, Bool-cases, true, Option-cases,
  arith, Bytes, bytes_eq, length, get_elem?, modify, All,
}
use mydak_server.StaticMap.{at, index_static_map}
use mydak_server.Decimal.{leb_ℤ, is_a_number, from_chars}
use mydak_server.ParameterTable.{
  ParameterBase, ParameterVariants, string_parameter, number_parameter, NumberBase, ip_parameter,
  loopback, parameters, options,
}
use mydak_server.Parameters.{
  int8_max, set_number, try_set_number, number_in_limits, Processed, returns, exits, undefined,
  and_process, is_in_limits, try_set_val_internal, is_an_ip, try_set_val, visit_at, set_option,
  process_arg, process_from, process_args, split_at_equals,
}

pub and_process-inv {ℓ} :
    {A B : Type ℓ} (r : Processed A) (f : A → Processed B) (b : B)
    → and_process r f ≡ returns b
    → (a : A) × (r ≡ returns a) × (f a ≡ returns b)
and_process-inv (returns a) f b h = (a, refl, h)
and_process-inv (exits e) f b h = cc
and_process-inv undefined f b h = cc

abbrev pub Within : ℕ → ℕ → Bytes → Type 0
Within min max text = (min ≤ length text) × (length text ≤ max)

module _ (make_address : Bytes → Bool) where
  -- A text within the limits, and an address where one is asked for.
  abbrev pub IsProper : ParameterVariants → Type 0
  IsProper (number_parameter p) = (leb_ℤ p.min p.number ≡ true) × (leb_ℤ p.number p.max ≡ true)
  IsProper (string_parameter p) = Within p.min p.max p.text
  IsProper (ip_parameter p) = Within p.min p.max p.text × (is_an_ip make_address p.text ≡ true)

  is_in_limits-Within :
      (p : ParameterBase) (value : Bytes) → is_in_limits p value ≡ true → Within p.min p.max value
  unfolding is_in_limits
  is_in_limits-Within p value h = ground arith

  try_set_number-Within :
      (p q : NumberBase) (value : Bytes)
      → try_set_number p value ≡ returns q
      → (leb_ℤ q.min q.number ≡ true) × (leb_ℤ q.number q.max ≡ true)
  unfolding try_set_number set_number number_in_limits
  try_set_number-Within p q value h = elim (Bool-cases (is_a_number value)) [
    | inr other ↦ absurd (ground arith)
    | inl number ↦ elim (Option-cases (from_chars int8_max value)) [
      | inl large ↦ absurd (ground arith)
      | inr (n, read) ↦ ground arith
    ]
  ]

  try_set_val-IsProper :
      (p q : ParameterVariants) (value : Bytes)
      → try_set_val make_address p value ≡ returns q
      → IsProper q
  unfolding try_set_val try_set_val_internal
  try_set_val-IsProper (number_parameter p) q value h =
      let (b, set, e) =
        and_process-inv (try_set_number p value) (λ b. returns (number_parameter b)) q h in
      let wrapped : number_parameter b ≡ q = ground arith in
      subst IsProper wrapped (try_set_number-Within p b value set)
  try_set_val-IsProper (string_parameter p) q value h = elim (Bool-cases (is_in_limits p value)) [
    | inl fits ↦
        let e : string_parameter (record p { text = value }) ≡ q = ground arith in
        subst IsProper e (is_in_limits-Within p value fits)
    | inr bad ↦ absurd (ground arith)
  ]
  try_set_val-IsProper (ip_parameter p) q value h = elim (Bool-cases (is_in_limits p value)) [
    | inl fits ↦ elim (Bool-cases (is_an_ip make_address value)) [
      | inl address ↦
          let e : ip_parameter (record p { text = value }) ≡ q = ground arith in
          subst IsProper e (is_in_limits-Within p value fits, address)
      | inr other ↦ absurd (ground arith)
    ]
    | inr bad ↦ absurd (ground arith)
  ]

  All-modify :
      (ps : List ParameterVariants) (i : ℕ) (q : ParameterVariants)
      → IsProper q
      → All IsProper ps
      → All IsProper (modify (λ _. q) ps i)
  All-modify [] i q h a = a
  All-modify (p ∷ ps) zero q h a = (h, a.1)
  All-modify (p ∷ ps) (suc i) q h a = (a.0, All-modify ps i q h a.1)

  visit_at-IsProper :
      (index : ℕ) (value : Bytes) (ps qs : List ParameterVariants)
      → All IsProper ps
      → visit_at make_address index value ps ≡ returns qs
      → All IsProper qs
  unfolding visit_at
  visit_at-IsProper index value ps qs a h = elim (Option-cases (get_elem? ps index)) [
    | inl missing ↦ absurd (ground arith)
    | inr (p, found) ↦
        let (q, set, done) =
          and_process-inv (try_set_val make_address p value)
            (λ q. returns (modify (λ _. q) ps index)) qs (ground arith) in
        let e : modify (λ _. q) ps index ≡ qs = ground arith in
        subst (All IsProper) e (All-modify ps index q (try_set_val-IsProper p q value set) a)
  ]

  process_arg-IsProper :
      (i : ℕ) (raw : Bytes) (ps qs : List ParameterVariants)
      → All IsProper ps
      → process_arg make_address i raw ps ≡ returns qs
      → All IsProper qs
  unfolding process_arg set_option
  process_arg-IsProper i raw ps qs a h = elim (Option-cases (split_at_equals raw)) [
    | inl no_equals ↦ absurd (ground arith)
    | inr ((name, value), split) ↦ elim (Option-cases (at name (index_static_map options))) [
      | inl unknown ↦ absurd (ground arith)
      | inr (index, known) ↦ visit_at-IsProper index value ps qs a (ground arith)
    ]
  ]

  process_from-IsProper :
      (i : ℕ) (args : List Bytes) (ps qs : List ParameterVariants)
      → All IsProper ps
      → process_from make_address i args ps ≡ returns qs
      → All IsProper qs
  unfolding process_from
  process_from-IsProper i [] ps qs a h = let e : ps ≡ qs = ground arith in subst (All IsProper) e a
  process_from-IsProper i (raw ∷ args) ps qs a h =
      let (rs, set, rest) =
        and_process-inv (process_arg make_address i raw ps) (process_from make_address (suc i) args)
          qs h in
      process_from-IsProper (suc i) args rs qs (process_arg-IsProper i raw ps rs a set) rest

  -- If 127.0.0.1 is taken for an address and the command line is accepted, then every value,
  -- default or given, has a length within the limits of its parameter, and one that should be an
  -- address is localhost or is taken for one.
  pub process_args-IsProper :
      (args : List Bytes) (ps : List ParameterVariants)
      → make_address loopback ≡ true
      → process_args make_address args ≡ returns ps
      → All IsProper ps
  unfolding process_args parameters is_an_ip bytes_eq
  process_args-IsProper args ps local h =
      process_from-IsProper 1 args parameters ps
        (
          ((omega arith, omega arith), local),
          ((omega arith, omega arith), ((omega arith, omega arith), tt)),
        )
        h
