-- ===== src/Database/Operations/Messages.antt =====
-- The stored messages of core/database/database.cpp: written, read back in order, deleted.
use mathlib.Core.List.{append_assoc}
use mydak_server.Base.{
  ℕ, ◌≡◌, refl, sym, ap, ◌∙◌, true, List, [], ◌∷◌, ◌++◌, map, some, arith, Bytes, ◌==◌,
  if◌then◌else◌, List-cases, inl, inr,
}
use mydak_server.Task.{done}
use mydak_server.Database.{Mariadb, DbMessage}
use mydak_server.Database.Operations.{
  Database, async_execute_queued, add_message, get_delayed_messages, delete_delayed_messages,
}
use mydak_server.Database.Operations.Tables.{Documented, without, is_among}

abbrev pub contents : List DbMessage → List Bytes
contents = map (λ x. x.content)

abbrev pub row_ids : List DbMessage → List ℕ
row_ids = map (λ x. x.db_index)

is_among-append :
    (xs ys : List DbMessage) (y : DbMessage) → is_among y.db_index (row_ids (xs ++ y ∷ ys)) ≡ true
is_among-append [] ys y = ground arith
is_among-append (x ∷ xs) ys y = ground (arith, is_among-append xs ys y)

without-suffix : (xs ys : List DbMessage) → without (row_ids (xs ++ ys)) ys ≡ []
without-suffix xs [] = refl
without-suffix xs (y ∷ ys) = rw (is_among-append xs ys y) (
    ap (λ t. without (row_ids t) ys) (sym (append_assoc xs (y ∷ []) ys))
    ∙ without-suffix (xs ++ y ∷ []) ys)

module _ (m : Mariadb) (doc : Documented m) where
  open doc use {user, stored}

  pub get_delayed_messages-stored :
      (u : ℕ) (d : Database m)
      → d.running ≡ true
      → get_delayed_messages m u d ≡ (done (stored d.tables u), d)
  unfolding get_delayed_messages async_execute_queued
  get_delayed_messages-stored u d up = ground (arith, doc.selects_messages d.tables u)

  -- To delete the rows that a user has leaves none, and the queue runs on.
  pub delete_all :
      (u : ℕ) (d : Database m)
      → d.running ≡ true
      → (d' : Database m) × (delete_delayed_messages m (row_ids (stored d.tables u)) d
          ≡ (done tt, d'))
        × (stored d'.tables u ≡ [])
        × (d'.running ≡ true)
        × ((j : Bytes) → user d'.tables j ≡ user d.tables j)
  unfolding delete_delayed_messages async_execute_queued
  delete_all u d up = elim (List-cases (stored d.tables u)) [
    | inl e ↦ (d, ground arith, e, up, λ j. refl)
    | inr (x, xs, e) ↦
        let ids = row_ids (stored d.tables u) in
        let (r, t', ran, users, rest) = doc.deletes_messages d.tables ids in
        (
          record d { tables = t' },
          ground arith,
          rest u ∙ without-suffix [] (stored d.tables u),
          up,
          users,
        )
  ]

  -- A message for a user that has a row goes to the end of that user's messages, and to nobody
  -- else's.
  pub add_message_known :
      (k : Bytes) (u : ℕ) (content : Bytes) (d : Database m)
      → d.running ≡ true
      → user d.tables k ≡ some u
      → (id : ℕ) × (d' : Database m) × (add_message m u content d ≡ (done tt, d'))
        × (d'.running ≡ true)
        × ((j : Bytes) → user d'.tables j ≡ user d.tables j)
        × ((w : ℕ)
            → stored d'.tables w ≡ (
                if u == w
                then stored d.tables w ++ (record { content = content; db_index = id }) ∷ []
                else stored d.tables w))
  unfolding add_message async_execute_queued
  add_message_known k u content d up known =
      let (id, t', ran, users, rest) = doc.inserts_message d.tables k u content known in
      (id, record d { tables = t' }, ground arith, up, users, rest)
