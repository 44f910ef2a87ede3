-- ===== src/SlotVector/Doubled.antt =====
-- A slot of core/util/slot_vector.hpp that is popped while it is empty: `pop` queues it again.
use mydak_server.Base.{
  ℕ, ◌≡◌, refl, ap, ◌∙◌, List, [], ◌∷◌, ◌++◌, some, arith, modify, get_elem?_lt,
  get_elem?-modify_at,
}
use mydak_server.ClientIndex.{ClientIndex, with_generation}
use mydak_server.Slot.{Slot, clear, set_value, get_slot_generation}
use mydak_server.SlotVector.{SlotVector, slot_at, reuse, emplace_back, pop}

module _ {ℓ} {T : Type ℓ} where
  pop_at :
      (i : ℕ) (v : SlotVector T) (s : Slot T)
      → slot_at v i ≡ some s
      → (slot_at (pop i v) i ≡ some (clear s)) × ((pop i v).empty_slots ≡ v.empty_slots ++ i ∷ [])
  unfolding pop
  pop_at i v s at =
      ground (arith, get_elem?_lt v.clients i s at, get_elem?-modify_at clear v.clients i i s at)

  -- The slot that `emplace_back` takes is the first in the queue.
  reuse_first :
      (x : T) (i : ℕ) (rest : List ℕ) (v : SlotVector T) (s : Slot T)
      → v.empty_slots ≡ i ∷ rest
      → slot_at v i ≡ some s
      → (w : SlotVector T) × (c : ClientIndex) × (emplace_back x v ≡ some (w, c))
        × (c.index ≡ i)
        × (w.empty_slots ≡ rest)
        × (slot_at w i ≡ some (set_value x s))
  unfolding emplace_back reuse with_generation
  reuse_first x i rest v s e at = (
    record v { clients = modify (set_value x) v.clients i; empty_slots = rest },
    with_generation i (get_slot_generation (set_value x s)),
    rw (e, at, emplace_back, reuse) refl,
    refl,
    refl,
    ground (arith, get_elem?-modify_at (set_value x) v.clients i i s at),
  )

  -- If a slot of a vector without vacancies is popped twice, the next two objects that are added
  -- are both given its index, and the second replaces the first in the slot.
  pub pop_twice :
      (i : ℕ) (x y : T) (v : SlotVector T) (s : Slot T)
      → v.empty_slots ≡ []
      → slot_at v i ≡ some s
      → (w w' : SlotVector T) × (c c' : ClientIndex) × (emplace_back x (pop i (pop i v))
          ≡ some (w, c))
        × (emplace_back y w ≡ some (w', c'))
        × (c.index ≡ i)
        × (c'.index ≡ i)
        × (slot_at w' i ≡ some (set_value y (set_value x (clear (clear s)))))
  pop_twice i x y v s e at =
      let (at1, queue1) = pop_at i v s at in
      let (at2, queue2) = pop_at i (pop i v) (clear s) at1 in
      let queue : (pop i (pop i v)).empty_slots ≡ i ∷ i ∷ [] =
        queue2 ∙ ap (λ q. q ++ i ∷ []) (queue1 ∙ ap (λ q. q ++ i ∷ []) e) in
      let (w, c, added, index, left, here) =
        reuse_first x i (i ∷ []) (pop i (pop i v)) (clear (clear s)) queue at2 in
      let (w', c', added', index', left', here') =
        reuse_first y i [] w (set_value x (clear (clear s))) left here in
      (w, w', c, c', added, added', index, index', here')
