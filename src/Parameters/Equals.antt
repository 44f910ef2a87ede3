-- ===== src/Parameters/Equals.antt =====
-- The first equals sign of an argument, in core/parameters/parameters_accessor.cpp.
use mydak_server.Base.{
  ℕ, ◌≡◌, ◌≢◌, ap, inl, inr, [], ◌∷◌, ◌++◌, Bool-cases, ◌==◌, none, some, Option-cases, arith,
  Bytes, All,
}
use mydak_server.Parameters.{split_at_equals}

-- Text without an equals sign.
abbrev pub IsPlain : Bytes → Type 0
IsPlain = All (λ (c : ℕ). c ≢ 61)

-- An argument that is not split has no equals sign.
pub split_at_equals-none : (raw : Bytes) → split_at_equals raw ≡ none → IsPlain raw
unfolding split_at_equals
split_at_equals-none [] h = tt
split_at_equals-none (c ∷ cs) h = elim (Option-cases (split_at_equals cs)) [
  | inl e ↦ (ground arith, split_at_equals-none cs e)
  | inr (p, e) ↦ absurd (ground arith)
]

-- An argument is split at its first equals sign.
pub split_at_equals-inv :
    (raw name value : Bytes)
    → split_at_equals raw ≡ some (name, value)
    → (raw ≡ name ++ 61 ∷ value) × IsPlain name
unfolding split_at_equals
split_at_equals-inv [] name value h = cc
split_at_equals-inv (c ∷ cs) name value h = elim (Bool-cases (c == 61)) [
  | inl here ↦
      let e : name ≡ [] = ground arith in
      let f : value ≡ cs = ground arith in rw (e, f) (ground arith, tt)
  | inr later ↦ elim (Option-cases (split_at_equals cs)) [
    | inl e ↦ absurd (ground arith)
    | inr ((before, after), e) ↦
        let (whole, plain) = split_at_equals-inv cs before after e in
        let f : name ≡ c ∷ before = ground arith in
        let g : value ≡ after = ground arith in
        rw (f, g) (ap (λ t. c ∷ t) whole, (ground arith, plain))
  ]
]
