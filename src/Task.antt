-- ===== src/Task.antt =====
-- Coroutines over a state, run one at a time: what `co_await`, exceptions and undefined behaviour
-- come to for the coroutine that meets them. Each component's module names its own state.

pub data Outcome {ℓ} (A : Type ℓ) : Type ℓ where
  -- the coroutine goes on with a value
  done : A → Outcome A
  -- it throws a `std::exception`
  threw : Outcome A
  -- it is suspended and nothing will resume it
  hung : Outcome A
  -- it reads out of bounds, through a null pointer or an invalid iterator
  undefined : Outcome A

abbrev pub and_then {ℓ} : {S A B : Type ℓ} → Outcome A × S → (A → S → Outcome B × S) → Outcome B × S
and_then (done a, s) f = f a s
and_then (threw, s) f = (threw, s)
and_then (hung, s) f = (hung, s)
and_then (undefined, s) f = (undefined, s)

infixl 5 ◌>>=◌ ◌>>◌
abbrev pub ◌>>=◌ {ℓ} :
    {S A B : Type ℓ} → (S → Outcome A × S) → (A → S → Outcome B × S) → S → Outcome B × S
◌>>=◌ t f s = and_then (t s) f

abbrev pub ◌>>◌ {ℓ} :
    {S A B : Type ℓ} → (S → Outcome A × S) → (S → Outcome B × S) → S → Outcome B × S
◌>>◌ t u s = and_then (t s) (λ a. u)

abbrev pub pure {ℓ} : {S A : Type ℓ} → A → S → Outcome A × S
pure a s = (done a, s)

-- `try { … } catch (const std::exception&) { … }` that goes on with a value.
abbrev pub on_throw {ℓ} : {S A : Type ℓ} → A → Outcome A × S → Outcome A × S
on_throw a (done b, s) = (done b, s)
on_throw a (threw, s) = (done a, s)
on_throw a (hung, s) = (hung, s)
on_throw a (undefined, s) = (undefined, s)

abbrev pub catch {ℓ} : {S A : Type ℓ} → (S → Outcome A × S) → A → S → Outcome A × S
catch t a s = on_throw a (t s)
