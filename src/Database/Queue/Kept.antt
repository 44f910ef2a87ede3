-- ===== src/Database/Queue/Kept.antt =====
-- What a statement of core/database/database.cpp leaves of the messages that are stored, by what
-- MariaDB documents.
use mydak_server.Base.{
  ℕ, ◌≡◌, ◌≢◌, inl, inr, Bool-cases, Bool, true, false, ◌&&◌, ◌||◌, List, [], ◌∷◌, ◌++◌, some,
  Option-cases, arith, Bytes, bytes_eq, bytes_eq_refl, ◌==◌,
}
use mydak_server.Database.{
  DbMessage, Request, Results, Mariadb, insert_user, select_user, insert_message, select_messages,
  delete_messages,
}
use mydak_server.Database.Operations.Tables.{Documented, is_among, without}

-- A row with this content and this id is among the rows.
unfoldable pub has_row : Bytes → ℕ → List DbMessage → Bool
has_row x id [] = false
has_row x id (y ∷ ys) = (bytes_eq y.content x && (y.db_index == id)) || has_row x id ys

has_row-append :
    (x y : Bytes) (id n : ℕ) (rows : List DbMessage)
    → has_row x id rows ≡ true
    → has_row x id (rows ++ (record { content = y; db_index = n }) ∷ []) ≡ true
unfolding has_row
has_row-append x y id n [] h = ground arith
has_row-append x y id n (z ∷ zs) h = ground (arith, has_row-append x y id n zs)

has_row-append_same :
    (x : Bytes) (id : ℕ) (rows : List DbMessage)
    → has_row x id (rows ++ (record { content = x; db_index = id }) ∷ []) ≡ true
unfolding has_row
has_row-append_same x id [] = ground (arith, bytes_eq_refl x)
has_row-append_same x id (z ∷ zs) = ground (arith, has_row-append_same x id zs)

has_row-without :
    (x : Bytes) (id : ℕ) (ids : List ℕ) (rows : List DbMessage)
    → is_among id ids ≡ false
    → has_row x id rows ≡ true
    → has_row x id (without ids rows) ≡ true
unfolding has_row
has_row-without x id ids [] out h = h
has_row-without x id ids (z ∷ zs) out h = elim (Bool-cases (z.db_index == id)) [
  | inl same ↦
      let e : z.db_index ≡ id = ground arith in ground (arith, e, has_row-without x id ids zs out)
  | inr other ↦ ground (arith, has_row-without x id ids zs out)
]

module _ (m : Mariadb) (doc : Documented m) where
  open doc use {user, stored}

  -- A deletion that names other rows only.
  abbrev pub Spares : ℕ → Request → Type 0
  Spares id (delete_messages ids) = is_among id ids ≡ false
  Spares id r = Unit

  -- An insertion leaves a row with the message and the id that it returns.
  pub insert-has_row :
      (u : ℕ) (x : Bytes) (t t' : m.Tables) (result : Results)
      → m.execute (insert_message u x) t ≡ some (result, t')
      → has_row x result.last_insert_id (stored t' u) ≡ true
  insert-has_row u x t t' result ran =
      elim (Bool-cases (has_row x result.last_insert_id (stored t' u))) [
        | inl there ↦ there
        | inr missing ↦
            let unknown : (k : Bytes) → user t k ≢ some u = λ k e.
              let (id, t1, ran1, users, kept) = doc.inserts_message t k u x e in
              ground (arith, kept u, has_row-append_same x id (stored t u)) in
            absurd (ground (arith, doc.refuses_message t u x unknown))
      ]

  -- A statement leaves a row, unless it deletes it.
  pub execute-has_row :
      (r : Request) (u id : ℕ) (x : Bytes) (t t' : m.Tables) (result : Results)
      → m.execute r t ≡ some (result, t')
      → Spares id r
      → has_row x id (stored t u) ≡ true
      → has_row x id (stored t' u) ≡ true
  execute-has_row (insert_user k) u id x t t' result ran spares h = elim (Option-cases (user t k)) [
    | inl new ↦
        let (i, t1, ran1, pos, users, kept) = doc.inserts_user t k new in ground (arith, kept u)
    | inr (i, known) ↦ ground (arith, doc.ignores_user t k i known)
  ]
  execute-has_row (select_user k) u id x t t' result ran spares h =
      ground (arith, doc.selects_user t k)
  execute-has_row (insert_message w y) u id x t t' result ran spares h =
      elim (Bool-cases (has_row x id (stored t' u))) [
        | inl there ↦ there
        | inr missing ↦
            let unknown : (k : Bytes) → user t k ≢ some w = λ k e.
              let (n, t1, ran1, users, kept) = doc.inserts_message t k w y e in
              ground (arith, kept u, has_row-append x y id n (stored t u) h) in
            absurd (ground (arith, doc.refuses_message t w y unknown))
      ]
  execute-has_row (select_messages w) u id x t t' result ran spares h =
      ground (arith, doc.selects_messages t w)
  execute-has_row (delete_messages ids) u id x t t' result ran spares h =
      let (r1, t1, ran1, users, left) = doc.deletes_messages t ids in
      ground (arith, left u, has_row-without x id ids (stored t u) spares h)
