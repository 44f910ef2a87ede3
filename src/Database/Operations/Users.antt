-- ===== src/Database/Operations/Users.antt =====
-- The users' rows, and the message that ends the service, in core/database/database.cpp.
use mydak_server.Base.{
  ℕ, ◌<◌, ◌≡◌, ◌≢◌, refl, inl, inr, true, false, Option, none, some, arith, Bytes, bytes_eq,
  bytes_eq_iff, if◌then◌else◌, Option-cases, ◌-◌, word,
}
use mydak_server.Task.{done, hung}
use mydak_server.Database.{Mariadb}
use mydak_server.Database.Operations.{
  has_format_opts, Database, async_execute_queued, execute_at_once, add_user, add_message,
  get_db_index,
}
use mydak_server.Database.Operations.Tables.{Documented}

-- The id that stands for a missing row.
abbrev pub id_or_zero : Option ℕ → ℕ
id_or_zero none = 0
id_or_zero (some i) = i

module _ (m : Mariadb) (doc : Documented m) where
  open doc use {user, stored}

  -- A key that has a row gets the id of that row, and nothing is written.
  pub add_user_known :
      (k : Bytes) (i : ℕ) (d : Database m)
      → d.running ≡ true
      → user d.tables k ≡ some i
      → add_user m k d ≡ (done i, d)
  unfolding add_user async_execute_queued
  add_user_known k i d up known =
      ground (arith, doc.ignores_user d.tables k i known, doc.selects_user d.tables k)

  -- What `add_user` leaves behind: the key has the row whose id is returned, every other key and
  -- every stored message is as before, and the queue still runs.
  pub record Registered (k : Bytes) (i : ℕ) (d d' : Database m) : Type 0 where
    pub running : d'.running ≡ true
    pub positive : 0 < i
    pub users : (j : Bytes) → user d'.tables j ≡ (if bytes_eq k j then some i else user d.tables j)
    pub messages : (u : ℕ) → stored d'.tables u ≡ stored d.tables u
    pub same_row : (j : ℕ) → user d.tables k ≡ some j → i ≡ j

  -- While the database is served, adding a user returns the positive id of the key's row, the old
  -- one if there was one; every other key keeps its row or lack of one, no stored message changes,
  -- and the database is served still.
  pub add_user-Registered :
      (k : Bytes) (d : Database m)
      → d.running ≡ true
      → (i : ℕ) × (d' : Database m) × (add_user m k d ≡ (done i, d')) × Registered k i d d'
  unfolding add_user async_execute_queued
  add_user-Registered k d up = elim (Option-cases (user d.tables k)) [
    | inr (i, known) ↦ (
      i,
      d,
      add_user_known k i d up known,
      record {
        running = up;
        positive = doc.ids_positive d.tables k i known;
        users = λ j. ground (arith, bytes_eq_iff k j);
        messages = λ u. refl;
        same_row = λ j e. ground arith;
      },
    )
    | inl unknown ↦
        let (i, t', ran, pos, users, kept) = doc.inserts_user d.tables k unknown in
        (
          i,
          record d { tables = t' },
          ground (arith, ran),
          record {
            running = up;
            positive = pos;
            users = users;
            messages = kept;
            same_row = λ j e. absurd (ground arith);
          },
        )
  ]

  -- The row of a key, if the connection was made.
  abbrev pub row_id : Bytes → Database m → ℕ
  row_id k d = if has_format_opts m d then id_or_zero (user d.tables k) else 0

  -- A key without a row is given 0, which is no user's id; no exception reaches the caller.
  pub get_db_index-user : (k : Bytes) (d : Database m) → get_db_index m k d ≡ (done (row_id k d), d)
  unfolding get_db_index execute_at_once
  get_db_index-user k d = ground (arith, doc.selects_user d.tables k)

  no_user_zero : (t : m.Tables) (k : Bytes) → user t k ≢ some 0
  no_user_zero t k e = absurd (omega (arith, doc.ids_positive t k 0 e))

  -- A message that is addressed to no user violates the foreign key: the caller hangs, and the
  -- loop that runs the statements has ended.
  pub add_message_unknown :
      (content : Bytes) (d : Database m)
      → d.running ≡ true
      → add_message m 0 content d ≡ (hung, record d { running = false })
  unfolding add_message async_execute_queued
  add_message_unknown content d up =
      ground (arith, doc.refuses_message d.tables 0 content (no_user_zero d.tables))

-- On a connection whose loop does not run, every login hangs, whatever the key.
pub add_user_ended :
    (m : Mariadb) (k : Bytes) (d : Database m)
    → d.running ≡ false
    → d.connected ≡ true
    → add_user m k d ≡ (hung, d)
unfolding add_user async_execute_queued
add_user_ended m k d h c = ground arith

-- Where the connection was never made, -1 is returned for a row.
pub add_user_unconnected :
    (m : Mariadb) (k : Bytes) (d : Database m)
    → d.running ≡ false
    → d.connected ≡ false
    → add_user m k d ≡ (done (word - 1), d)
unfolding add_user
add_user_unconnected m k d h c = ground arith
