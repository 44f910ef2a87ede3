-- ===== src/SlotVector.antt =====
-- core/util/slot_vector.hpp: a vector of slots that are reused, oldest vacancy first.
pub mod Vacancies
pub mod Stale
pub mod Doubled
use mydak_server.Base.{
  ℕ, ◌+◌, ◌%◌, List, [], ◌∷◌, ◌++◌, Option, none, some, word, leb, if◌then◌else◌, length, get_elem?,
  modify,
}
use mydak_server.ClientIndex.{ClientIndex, with_generation}
use mydak_server.Slot.{Slot, make_slot, clear, get_slot_generation, set_value}

pub record SlotVector {ℓ} (T : Type ℓ) : Type ℓ where
  pub clients : List (Slot T)
  pub empty_slots : List ℕ
  pub global_index : ℕ

module _ {ℓ} {T : Type ℓ} where
  -- `slot_vector<T>{}`
  unfoldable pub no_slots : SlotVector T
  no_slots = record { clients = []; empty_slots = []; global_index = 0 }

  -- `operator[]`; `none` is an access out of bounds.
  abbrev pub slot_at : SlotVector T → ℕ → Option (Slot T)
  slot_at v i = get_elem? v.clients i

  -- The branch of `emplace_back` that reuses the slot at the front of the queue.
  unfoldable pub reuse : T → ℕ → List ℕ → SlotVector T → Option (SlotVector T × ClientIndex)
  unfolding get_slot_generation with_generation
  reuse value index rest v = elim (slot_at v index) [
    | none ↦ none
    | some s ↦ some (
      record v { clients = modify (set_value value) v.clients index; empty_slots = rest },
      with_generation index (get_slot_generation (set_value value s)),
    )
  ]

  -- The branch of `emplace_back` that grows the vector.
  unfoldable pub grow : T → SlotVector T → Option (SlotVector T × ClientIndex)
  unfolding make_slot with_generation
  grow value v = some (
    record v {
      clients = v.clients ++ make_slot value ∷ [];
      global_index = (v.global_index + 1) % word;
    },
    with_generation v.global_index 1,
  )

  unfoldable pub emplace_back : T → SlotVector T → Option (SlotVector T × ClientIndex)
  unfolding reuse grow
  emplace_back value v = elim v.empty_slots [
    | [] ↦ grow value v
    | index ∷ rest ↦ reuse value index rest v
  ]

  unfoldable pub pop : ℕ → SlotVector T → SlotVector T
  pop index v = if leb (length v.clients) index then v else record v {
    clients = modify clear v.clients index;
    empty_slots = v.empty_slots ++ index ∷ [];
  }
