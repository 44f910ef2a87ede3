-- ===== src/Slot.antt =====
-- core/util/slot.hpp: a place for one object, with the number of objects that it has held.
use mydak_server.Base.{ℕ, ◌+◌, ◌%◌, Bool, true, false, not, Option, none, some, word, if◌then◌else◌}

pub record Slot {ℓ} (T : Type ℓ) : Type ℓ where
  pub object : Option T
  pub generation : ℕ

module _ {ℓ} {T : Type ℓ} where
  -- `slot(T object)`
  unfoldable pub make_slot : T → Slot T
  make_slot object = record { object = some object; generation = 1 }

  unfoldable pub clear : Slot T → Slot T
  clear s = record s { object = none }

  unfoldable pub is_empty : Slot T → Bool
  is_empty s = elim s.object [ none ↦ true | some _ ↦ false ]

  -- `none` is the exception `std::bad_optional_access`.
  unfoldable pub get_slot_value : Slot T → Option T
  get_slot_value s = s.object

  unfoldable pub get_slot_generation : Slot T → ℕ
  get_slot_generation s = s.generation

  -- The object that `emplace` builds is given; the message to the log is left out.
  unfoldable pub set_value : T → Slot T → Slot T
  unfolding clear is_empty
  set_value value s =
      let cleared = if not (is_empty s) then clear s else s in
      record cleared { object = some value; generation = (cleared.generation + 1) % word }
