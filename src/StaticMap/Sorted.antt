-- ===== src/StaticMap/Sorted.antt =====
-- The constructor of the static map in core/util/tools.hpp leaves the pairs sorted. The sort is not
-- stable, so that the array is only known to hold the pairs in an order of their keys.
use mathlib.Core.List.{Permᴰ}
use mathlib.Core.List.Permᴰ.{nil, cons, swap, trans}
use mathlib.Core.List.Permᴰ
use mathlib.Core.Path.{subst}
use mydak_server.Base.{
  ◌≡◌, refl, sym, ap, ◌∙◌, List, [], ◌∷◌, true, false, none, some, arith, if◌then◌else◌, All, Bytes,
  Bool-cases, inl, inr, bytes_eq, bytes_eq_iff, find,
}
use mydak_server.StaticMap.{less, insert, static_map, lower_bound, at, if_key}
use mydak_server.StaticMap.Lookup.{less_irrefl, less_antisym, less_above}

less_asym : (a b : Bytes) → less a b ≡ true → less b a ≡ false
less_asym a b h = less_above a b b h (less_irrefl b)

less_trans : (a b c : Bytes) → less b a ≡ false → less c b ≡ false → less c a ≡ false
less_trans a b c h k = elim (Bool-cases (less a b)) [
  | inl below ↦ less_above a b c below k
  | inr above ↦ let same : a ≡ b = less_antisym a b above h in ap (less c) same ∙ k
]

module _ {ℓ} {T : Type ℓ} where
  -- No key stands behind a greater one.
  abbrev pub IsSorted : List (Bytes × T) → Type 0
  IsSorted [] = Unit
  IsSorted (p ∷ ps) = All (λ q. less q.0 p.0 ≡ false) ps × IsSorted ps

  -- No two pairs have the same key.
  abbrev pub IsDistinct : List (Bytes × T) → Type ℓ
  IsDistinct [] = Unit
  IsDistinct (p ∷ ps) = (find p.0 ps ≡ none) × IsDistinct ps

  -- The same pairs in some order, sorted by key: what `std::ranges::sort` may leave of them.
  abbrev pub IsSortOf : List (Bytes × T) → List (Bytes × T) → Type ℓ
  IsSortOf pairs array = IsSorted array × Permᴰ pairs array

  -- A key below all keys is not found.
  find-below :
      (key least : Bytes) (ps : List (Bytes × T))
      → less key least ≡ true
      → All (λ q. less q.0 least ≡ false) ps
      → find key ps ≡ none
  unfolding find
  find-below key least [] below h = refl
  find-below key least (p ∷ ps) below (first, rest) = elim (Bool-cases (bytes_eq p.0 key)) [
    | inr other ↦ ground (arith, find-below key least ps below rest)
    | inl same ↦
        let one : p.0 ≡ key = (bytes_eq_iff p.0 key).0 same in
        let b : less p.0 least ≡ true = ap (λ k. less k least) one ∙ below in absurd (ground arith)
  ]

  at-IsSorted :
      (key : Bytes) (array : List (Bytes × T)) → IsSorted array → at key array ≡ find key array
  unfolding at lower_bound if_key find
  at-IsSorted key [] h = refl
  at-IsSorted key (p ∷ ps) (least, rest) = elim (Bool-cases (less p.0 key)) [
    | inl below ↦ ground (arith, at-IsSorted key ps rest, less_irrefl key, bytes_eq_iff p.0 key)
    | inr above ↦ elim (Bool-cases (less key p.0)) [
      | inl beyond ↦ ground (arith, find-below key p.0 ps beyond least)
      | inr level ↦ ground (arith, less_antisym p.0 key, bytes_eq_iff p.0 key)
    ]
  ]

  find-missing :
      (key : Bytes) {l l' : List (Bytes × T)} → Permᴰ l l' → find key l ≡ none → find key l' ≡ none
  unfolding find
  find-missing key nil h = refl
  find-missing key (cons {a = a} {b = b} e d) h =
      ground (arith, find-missing key d, ap (λ (p : Bytes × T). bytes_eq p.0 key) e)
  find-missing key (swap {a = a} {b = b} {a' = a'} {b' = b'} e e') h = ground (
    arith,
    ap (λ (p : Bytes × T). bytes_eq p.0 key) e,
    ap (λ (p : Bytes × T). bytes_eq p.0 key) e',
  )
  find-missing key (trans d d') h = find-missing key d' (find-missing key d h)

  find-swap :
      (key : Bytes) (a b : Bytes × T) (l : List (Bytes × T))
      → find a.0 (b ∷ l) ≡ none
      → find key (a ∷ b ∷ l) ≡ find key (b ∷ a ∷ l)
  unfolding find
  find-swap key a b l h =
      ground (arith, bytes_eq_iff a.0 key, bytes_eq_iff b.0 key, bytes_eq_iff b.0 a.0)

  swap-IsDistinct :
      (a b : Bytes × T) (l : List (Bytes × T)) → IsDistinct (a ∷ b ∷ l) → IsDistinct (b ∷ a ∷ l)
  unfolding find
  swap-IsDistinct a b l (away, (away', rest)) = (
    ground (arith, bytes_eq_iff a.0 b.0, bytes_eq_iff b.0 a.0),
    (ground (arith, bytes_eq_iff b.0 a.0), rest),
  )

  Perm-IsDistinct : {l l' : List (Bytes × T)} → Permᴰ l l' → IsDistinct l → IsDistinct l'
  Perm-IsDistinct nil h = tt
  Perm-IsDistinct (cons {b = b} {l₂ = l₂} e d) (away, rest) =
      (ap (λ (p : Bytes × T). find p.0 l₂) (sym e) ∙ find-missing _ d away, Perm-IsDistinct d rest)
  Perm-IsDistinct (swap {a = a} {b = b} {b' = b'} {l = l} e e') h =
      subst (λ p. IsDistinct (p ∷ b' ∷ l)) e'
        (subst (λ q. IsDistinct (b ∷ q ∷ l)) e (swap-IsDistinct a b l h))
  Perm-IsDistinct (trans d d') h = Perm-IsDistinct d' (Perm-IsDistinct d h)

  find-Perm :
      (key : Bytes) {l l' : List (Bytes × T)} → Permᴰ l l' → IsDistinct l → find key l ≡ find key l'
  unfolding find
  find-Perm key nil h = refl
  find-Perm key (cons {b = b} {l₁ = l₁} e d) h =
      ap (λ p. find key (p ∷ l₁)) e
      ∙ ap (λ r. if bytes_eq b.0 key then some b.1 else r) (find-Perm key d h.1)
  find-Perm key (swap {a = a} {b = b} {b' = b'} {l = l} e e') h =
      find-swap key a b l h.0
      ∙ ap (λ p. find key (b ∷ p ∷ l)) e
      ∙ ap (λ p. find key (p ∷ b' ∷ l)) e'
  find-Perm key (trans d d') h = find-Perm key d h ∙ find-Perm key d' (Perm-IsDistinct d h)

  insert-Perm : (p : Bytes × T) (ps : List (Bytes × T)) → Permᴰ (p ∷ ps) (insert p ps)
  unfolding insert
  insert-Perm p [] = Permᴰ.refl (p ∷ [])
  insert-Perm p (q ∷ qs) = elim (Bool-cases (less q.0 p.0)) [
    | inl below ↦ rw below (trans (swap refl refl) (cons refl (insert-Perm p qs)))
    | inr above ↦ rw above (Permᴰ.refl (p ∷ q ∷ qs))
  ]

  pub static_map-Perm : (pairs : List (Bytes × T)) → Permᴰ pairs (static_map pairs)
  unfolding static_map
  static_map-Perm [] = nil
  static_map-Perm (p ∷ ps) = trans (cons refl (static_map-Perm ps)) (insert-Perm p (static_map ps))

  insert-All :
      (least : Bytes) (p : Bytes × T) (ps : List (Bytes × T))
      → less p.0 least ≡ false
      → All (λ q. less q.0 least ≡ false) ps
      → All (λ q. less q.0 least ≡ false) (insert p ps)
  unfolding insert
  insert-All least p [] h hs = (h, tt)
  insert-All least p (q ∷ qs) h (first, rest) = elim (Bool-cases (less q.0 p.0)) [
    | inl below ↦ rw below (first, insert-All least p qs h rest)
    | inr above ↦ rw above (h, (first, rest))
  ]

  -- What is not below a key is not below a lesser one.
  above-All :
      (least p : Bytes) (qs : List (Bytes × T))
      → less p least ≡ false
      → All (λ q. less q.0 p ≡ false) qs
      → All (λ q. less q.0 least ≡ false) qs
  above-All least p [] h hs = tt
  above-All least p (q ∷ qs) h (first, rest) =
      (less_trans least p q.0 h first, above-All least p qs h rest)

  insert-IsSorted : (p : Bytes × T) (ps : List (Bytes × T)) → IsSorted ps → IsSorted (insert p ps)
  unfolding insert
  insert-IsSorted p [] h = (tt, tt)
  insert-IsSorted p (q ∷ qs) (least, rest) = elim (Bool-cases (less q.0 p.0)) [
    | inl below ↦
        rw below (insert-All q.0 p qs (less_asym q.0 p.0 below) least, insert-IsSorted p qs rest)
    | inr above ↦ rw above ((above, above-All p.0 q.0 qs above least), (least, rest))
  ]

  pub static_map-IsSorted : (pairs : List (Bytes × T)) → IsSorted (static_map pairs)
  unfolding static_map
  static_map-IsSorted [] = tt
  static_map-IsSorted (p ∷ ps) = insert-IsSorted p (static_map ps) (static_map-IsSorted ps)

  -- For pairs of which no two have the same key, and any array of the same pairs that is sorted by
  -- key, as the one that the static map is modelled with is too: looking a key up by its lower
  -- bound in the array finds what a search through the pairs in their first order finds, or nothing
  -- if the key is in no pair.
  pub at-IsSortOf :
      (key : Bytes) (pairs array : List (Bytes × T))
      → IsDistinct pairs
      → IsSortOf pairs array
      → (at key array ≡ find key pairs) × IsSortOf pairs (static_map pairs)
  at-IsSortOf key pairs array distinct (sorted, same) = (
    at-IsSorted key array sorted ∙ sym (find-Perm key same distinct),
    (static_map-IsSorted pairs, static_map-Perm pairs),
  )
