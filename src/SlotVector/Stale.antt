-- ===== src/SlotVector/Stale.antt =====
-- Handles outlive the clients that they were given for. A handle resolves to an object only during
-- the life of the slot that it was issued in.
use mathlib.Core.Option.{some-injective}
use mathlib.Core.Path.{subst}
use mydak_server.Base.{
  ℕ, ◌+◌, ◌≤◌, ◌<◌, ◌≡◌, refl, ◌⊎◌, inl, inr, Bool-cases, leb, List, [], ◌∷◌, ◌++◌, Option, none,
  some, arith, word, ◌==◌, ◌>>=◌, if◌then◌else◌, length, modify, get_elem?-modify,
  get_elem?-modify_at, get_elem?-append_lt, get_elem?_lt, Option-cases, List-cases,
}
use mydak_server.ClientIndex.{ClientIndex}
use mydak_server.Slot.{Slot, make_slot, clear, set_value}
use mydak_server.SlotVector.{SlotVector, slot_at, reuse, grow, emplace_back, pop}

-- The operations that change a vector, one by one.
pub data Change {ℓ} (T : Type ℓ) : Type ℓ where
  added : T → Change T
  removed : ℕ → Change T

module _ {ℓ} {T : Type ℓ} where
  unfoldable pub change : Change T → SlotVector T → Option (SlotVector T)
  change (added x) v = elim (emplace_back x v) [ none ↦ none | some (w, c) ↦ some w ]
  change (removed i) v = some (pop i v)

  unfoldable pub changes : List (Change T) → SlotVector T → Option (SlotVector T)
  changes [] v = some v
  changes (c ∷ cs) v = do w ← change c v; changes cs w

  -- The object that a handle stands for: the slot is occupied and has the handle's generation.
  unfoldable pub resolve : SlotVector T → ℕ → ℕ → Option T
  resolve v i g = do s ← slot_at v i; if s.generation == g then s.object else none

  -- Slot `i` is past generation `g`, or empty since. Its generation is `b` at most.
  pub record Retired (i g b : ℕ) (v : SlotVector T) : Type ℓ where
    pub slot : Slot T
    pub present : slot_at v i ≡ some slot
    pub not_before : g ≤ slot.generation
    pub at_most : slot.generation ≤ b
    pub over : (slot.object ≡ none) ⊎ (g < slot.generation)

  -- What a change does to the slots.
  data Rewrites (xs ys : List (Slot T)) : Type ℓ where
    kept : ys ≡ xs → Rewrites xs ys
    grown : (x : T) → ys ≡ xs ++ make_slot x ∷ [] → Rewrites xs ys
    cleared : (i : ℕ) → ys ≡ modify clear xs i → Rewrites xs ys
    refilled : (x : T) (i : ℕ) → ys ≡ modify (set_value x) xs i → Rewrites xs ys

  reuse-Rewrites :
      (x : T) (i : ℕ) (rest : List ℕ) (v w : SlotVector T) (c : ClientIndex)
      → reuse x i rest v ≡ some (w, c)
      → Rewrites v.clients w.clients
  unfolding reuse
  reuse-Rewrites x i rest v w c e = elim (Option-cases (slot_at v i)) [
    | inl missing ↦ absurd (ground (arith, missing))
    | inr (s, at) ↦ refilled x i (ground arith)
  ]

  emplace_back-Rewrites :
      (x : T) (v w : SlotVector T) (c : ClientIndex)
      → emplace_back x v ≡ some (w, c)
      → Rewrites v.clients w.clients
  unfolding emplace_back
  emplace_back-Rewrites x v w c e = elim (List-cases v.empty_slots) [
    | inl none_free ↦ grown x (unfold grow in ground arith)
    | inr (i, rest, free) ↦ reuse-Rewrites x i rest v w c (ground arith)
  ]

  change-Rewrites :
      (c : Change T) (v w : SlotVector T) → change c v ≡ some w → Rewrites v.clients w.clients
  unfolding change
  change-Rewrites (added x) v w e = elim (Option-cases (emplace_back x v)) [
    | inl bad ↦ absurd (ground arith)
    | inr ((u, c), done) ↦ emplace_back-Rewrites x v w c (ground arith)
  ]
  change-Rewrites (removed i) v w e = elim (Bool-cases (leb (length v.clients) i)) [
    | inl outside ↦ kept (unfold pop in ground arith)
    | inr inside ↦ cleared i (unfold pop in ground arith)
  ]

  -- A change to a slot that keeps it retired.
  modify-Retired :
      (f : Slot T → Slot T) (j i g b : ℕ) (v w : SlotVector T)
      → ((s : Slot T)
          → g ≤ s.generation
          → s.generation ≤ b
          → (s.generation ≤ (f s).generation)
            × ((f s).generation ≤ b + 1)
            × (((f s).object ≡ none) ⊎ (g < (f s).generation)))
      → w.clients ≡ modify f v.clients j
      → Retired i g b v
      → Retired i g (b + 1) w
  modify-Retired f j i g b v w keep e r = elim (Bool-cases (j == i)) [
    | inl same ↦
        let (up, top, over) = keep r.slot r.not_before r.at_most in
        record {
          slot = f r.slot;
          present = rw (e, get_elem?-modify f v.clients j i, same, r.present) refl;
          not_before = omega arith;
          at_most = top;
          over = over;
        }
    | inr other ↦ record {
      slot = r.slot;
      present = rw (e, get_elem?-modify f v.clients j i, other) r.present;
      not_before = r.not_before;
      at_most = omega arith;
      over = r.over;
    }
  ]

  change-Retired :
      (i g b : ℕ) (v w : SlotVector T)
      → b + 1 < word
      → Rewrites v.clients w.clients
      → Retired i g b v
      → Retired i g (b + 1) w
  unfolding clear set_value
  change-Retired i g b v w room (kept e) r = record {
    slot = r.slot;
    present = rw e r.present;
    not_before = r.not_before;
    at_most = omega arith;
    over = r.over;
  }
  change-Retired i g b v w room (grown x e) r = record {
    slot = r.slot;
    present =
        rw (e, get_elem?-append_lt v.clients (make_slot x ∷ []) i (get_elem?_lt _ i _ r.present))
          r.present;
    not_before = r.not_before;
    at_most = omega arith;
    over = r.over;
  }
  change-Retired i g b v w room (cleared j e) r =
      modify-Retired clear j i g b v w (λ s lo hi. (omega arith, omega arith, inl refl)) e r
  change-Retired i g b v w room (refilled x j e) r =
      modify-Retired (set_value x) j i g b v w
        (λ s lo hi. (ground arith, ground arith, inr (ground arith))) e r

  changes-Retired :
      (cs : List (Change T)) (i g b : ℕ) (v w : SlotVector T)
      → b + length cs < word
      → Retired i g b v
      → changes cs v ≡ some w
      → (b' : ℕ) × Retired i g b' w
  unfolding changes
  changes-Retired [] i g b v w room r e = (b, subst (Retired i g b) (some-injective v w e) r)
  changes-Retired (c ∷ cs) i g b v w room r e = elim (Option-cases (change c v)) [
    | inl bad ↦ absurd (ground arith)
    | inr (u, first) ↦
        changes-Retired cs i g (b + 1) u w (omega arith)
          (change-Retired i g b v u (omega arith) (change-Rewrites c v u first) r) (ground arith)
  ]

  pop-Retires :
      (i g : ℕ) (v : SlotVector T) (s : Slot T)
      → slot_at v i ≡ some s
      → s.generation ≡ g
      → Retired i g g (pop i v)
  unfolding pop clear
  pop-Retires i g v s at now = record {
    slot = clear s;
    present =
        ground (arith, get_elem?_lt v.clients i s at, get_elem?-modify_at clear v.clients i i s at);
    not_before = omega arith;
    at_most = omega arith;
    over = inl refl;
  }

  -- Take a slot of a vector, with its generation, and pop it. After any list of additions and
  -- removals that all succeed, the same slot included, the old index and generation resolve to
  -- nothing, provided that the generation plus the number of those changes stays below 2^64.
  pub resolve-pop_stale :
      (i g : ℕ) (cs : List (Change T)) (v w : SlotVector T) (s : Slot T)
      → slot_at v i ≡ some s
      → s.generation ≡ g
      → g + length cs < word
      → changes cs (pop i v) ≡ some w
      → resolve w i g ≡ none
  unfolding resolve
  resolve-pop_stale i g cs v w s at now room e =
      let (b, r) = changes-Retired cs i g g (pop i v) w room (pop-Retires i g v s at now) e in
      elim r.over [
        | inl gone ↦ rw (r.present, ◌>>=◌) (vanish r.slot gone)
        | inr past ↦ rw (r.present, ◌>>=◌) (ground arith)
      ]
    where
      vanish :
          (t : Slot T) → t.object ≡ none → (if t.generation == g then t.object else none) ≡ none
      vanish t gone = elim (Bool-cases (t.generation == g)) [
        | inl y ↦ rw y gone
        | inr n ↦ rw n refl
      ]
