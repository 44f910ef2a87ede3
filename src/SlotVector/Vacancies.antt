-- ===== src/SlotVector/Vacancies.antt =====
-- The queue of vacancies of core/util/slot_vector.hpp: it holds every empty slot once and nothing
-- else, as long as only occupied slots are popped.
use mydak_server.Base.{
  ℕ, ◌+◌, ◌%◌, ◌≤◌, ◌<◌, ◌≡◌, refl, ap, inl, inr, List, [], ◌∷◌, ◌++◌, Option, none, some, arith,
  word, ◌==◌, if◌then◌else◌, length, modify, count, count-append, length-append, length-modify,
  get_elem?-modify, get_elem?-modify_at, get_elem?-append_one, get_elem?_ge, get_elem?_lt,
  Option-cases, List-cases,
}
use mydak_server.ClientIndex.{ClientIndex, with_generation}
use mydak_server.Slot.{Slot, make_slot, clear, set_value, get_slot_generation}
use mydak_server.SlotVector.{SlotVector, slot_at, no_slots, reuse, grow, emplace_back, pop}

module _ {ℓ} {T : Type ℓ} where
  -- 1 for an empty slot, 0 for an occupied one and outside of the vector.
  abbrev pub vacancy : Option (Slot T) → ℕ
  vacancy none = 0
  vacancy (some s) = elim s.object [ none ↦ 1 | some _ ↦ 0 ]

  pub record IsValid (v : SlotVector T) : Type ℓ where
    pub counted : v.global_index ≡ length v.clients
    pub vacancies : (i : ℕ) → count i v.empty_slots ≡ vacancy (slot_at v i)

  pub no_slots-IsValid : IsValid no_slots
  unfolding no_slots
  no_slots-IsValid = record { counted = refl; vacancies = λ i. refl }

  -- Popping a slot that is occupied keeps a slot vector valid: its counter is the number of slots,
  -- and its queue of vacancies holds each empty slot once and nothing else.
  pub pop-IsValid :
      (i : ℕ) (v : SlotVector T) (s : Slot T) (x : T)
      → IsValid v
      → slot_at v i ≡ some s
      → s.object ≡ some x
      → IsValid (pop i v)
  unfolding pop clear
  pop-IsValid i v s x h at occupied = record {
    counted = ground (arith, length-modify clear v.clients i, h.counted);
    vacancies = λ j. ground (
      arith,
      get_elem?_lt v.clients i s,
      get_elem?-modify clear v.clients i j,
      count-append j v.empty_slots (i ∷ []),
      h.vacancies j,
    );
  }

  -- What `emplace_back` promises: the object lies in a slot that was empty or missing, under the
  -- index and the generation returned, and no other slot has changed.
  pub record Placed (x : T) (v w : SlotVector T) (c : ClientIndex) : Type ℓ where
    pub valid : IsValid w
    pub was_vacant : (s : Slot T) → slot_at v c.index ≡ some s → s.object ≡ none
    pub placed :
        (j : ℕ)
        → slot_at w j ≡ (
            if c.index == j
            then some (record { object = some x; generation = c.generation })
            else slot_at v j)
    pub no_row : c.db_index ≡ 0
    pub grown : length w.clients ≤ length v.clients + 1

  grow-Placed :
      (x : T) (v : SlotVector T)
      → IsValid v
      → length v.clients + 1 < word
      → v.empty_slots ≡ []
      → (w : SlotVector T) × (c : ClientIndex) × (grow x v ≡ some (w, c)) × Placed x v w c
  unfolding grow make_slot with_generation
  grow-Placed x v h room e = (
    record v {
      clients = v.clients ++ make_slot x ∷ [];
      global_index = (v.global_index + 1) % word;
    },
    with_generation v.global_index 1,
    refl,
    record {
      valid = record {
        counted = ground (arith, h.counted, length-append v.clients (make_slot x ∷ []));
        vacancies = λ j. ground (
          arith,
          h.vacancies j,
          get_elem?-append_one v.clients (make_slot x) j,
          get_elem?_ge v.clients j,
        );
      };
      was_vacant = λ s at. ground (arith, get_elem?_lt v.clients v.global_index s, h.counted);
      placed = λ j. ground (arith, h.counted, get_elem?-append_one v.clients (make_slot x) j);
      no_row = refl;
      grown = omega (arith, length-append v.clients (make_slot x ∷ []));
    },
  )

  vacant_of : (s : Slot T) → vacancy (some s) ≡ 1 → s.object ≡ none
  vacant_of s h = elim (Option-cases s.object) [ inl e ↦ e | inr (x, e) ↦ absurd (ground arith) ]

  queued-vacant :
      (v : SlotVector T) (i : ℕ) (rest : List ℕ) (s : Slot T)
      → IsValid v
      → v.empty_slots ≡ i ∷ rest
      → slot_at v i ≡ some s
      → vacancy (some s) ≡ 1
  queued-vacant v i rest s h e at = ground (arith, h.vacancies i, ap (count i) e)

  reuse-Placed :
      (x : T) (i : ℕ) (rest : List ℕ) (v : SlotVector T) (s : Slot T)
      → IsValid v
      → v.empty_slots ≡ i ∷ rest
      → slot_at v i ≡ some s
      → (w : SlotVector T) × (c : ClientIndex) × (reuse x i rest v ≡ some (w, c)) × Placed x v w c
  unfolding reuse set_value get_slot_generation with_generation
  reuse-Placed x i rest v s h e at = (
    record v { clients = modify (set_value x) v.clients i; empty_slots = rest },
    with_generation i (get_slot_generation (set_value x s)),
    rw (at, reuse) refl,
    record {
      valid = record {
        counted = ground (arith, h.counted, length-modify (set_value x) v.clients i);
        vacancies = λ j. ground (
          arith,
          h.vacancies j,
          h.vacancies i,
          ap (count j) e,
          get_elem?-modify (set_value x) v.clients i j,
        );
      };
      was_vacant = λ t q. vacant_of t (queued-vacant v i rest t h e q);
      placed = λ j. get_elem?-modify_at (set_value x) v.clients i j s at;
      no_row = refl;
      grown = omega (arith, length-modify (set_value x) v.clients i);
    },
  )

  -- A queued index names a slot.
  queued-slot :
      (v : SlotVector T) (i : ℕ) (rest : List ℕ)
      → IsValid v
      → v.empty_slots ≡ i ∷ rest
      → (s : Slot T) × (slot_at v i ≡ some s)
  queued-slot v i rest h e = elim (Option-cases (slot_at v i)) [
    | inl missing ↦ absurd (ground (arith, h.vacancies i, ap (count i) e))
    | inr found ↦ found
  ]

  -- Adding an object to a valid slot vector with fewer than 2^64 - 1 slots succeeds. The object
  -- lies in a slot that was empty or missing, under the index and the generation that are returned;
  -- no other slot changes, and the vector stays valid: its queue of vacancies holds each empty slot
  -- once and nothing else.
  pub emplace_back-Placed :
      (x : T) (v : SlotVector T)
      → IsValid v
      → length v.clients + 1 < word
      → (w : SlotVector T) × (c : ClientIndex) × (emplace_back x v ≡ some (w, c)) × Placed x v w c
  unfolding emplace_back
  emplace_back-Placed x v h room = elim (List-cases v.empty_slots) [
    | inl e ↦
        let (w, c, grown, p) = grow-Placed x v h room e in (w, c, rw (e, emplace_back) grown, p)
    | inr (i, rest, e) ↦
        let (s, at) = queued-slot v i rest h e in
        let (w, c, reused, p) = reuse-Placed x i rest v s h e at in
        (w, c, rw (e, emplace_back) reused, p)
  ]
