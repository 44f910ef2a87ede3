-- ===== src/Database/Operations/Tables.antt =====
-- The tables that `database::start` creates in core/database/database.cpp, and what MariaDB
-- documents of the statements run on them. `public_key` is unique, `id` is generated from 1 on,
-- and a message of an unknown user is refused by the foreign key.
use mydak_server.Base.{
  ℕ, ◌<◌, ◌≡◌, ◌≢◌, List, [], ◌∷◌, ◌++◌, Bool, Option, none, some, Bytes, bytes_eq, if◌then◌else◌,
  ◌==◌, ◌||◌,
}
use mydak_server.Database.{
  Results, DbMessage, Mariadb, insert_user, select_user, insert_message, select_messages,
  delete_messages,
}

abbrev pub no_result : Results
no_result = record { affected_rows = 0; last_insert_id = 0; ids = []; messages = [] }

abbrev pub option_list {ℓ} : {A : Type ℓ} → Option A → List A
option_list none = []
option_list (some a) = a ∷ []

abbrev pub is_among : ℕ → List ℕ → Bool
is_among i [] = Bool.false
is_among i (j ∷ js) = (i == j) || is_among i js

abbrev pub without : List ℕ → List DbMessage → List DbMessage
without ids [] = []
without ids (x ∷ xs) = if is_among x.db_index ids then without ids xs else x ∷ without ids xs

pub record Documented (m : Mariadb) : Type 1 where
  -- the row of a key in `mydak_users`, and the rows of a user in `mydak_messages` by ascending id
  pub user : m.Tables → Bytes → Option ℕ
  pub stored : m.Tables → ℕ → List DbMessage
  pub ids_positive : (t : m.Tables) (k : Bytes) (i : ℕ) → user t k ≡ some i → 0 < i
  pub inserts_user :
      (t : m.Tables) (k : Bytes)
      → user t k ≡ none
      → (i : ℕ) × (t' : m.Tables) × (m.execute (insert_user k) t
          ≡ some (record no_result { affected_rows = 1; last_insert_id = i }, t'))
        × (0 < i)
        × ((j : Bytes) → user t' j ≡ (if bytes_eq k j then some i else user t j))
        × ((u : ℕ) → stored t' u ≡ stored t u)
  pub ignores_user :
      (t : m.Tables) (k : Bytes) (i : ℕ)
      → user t k ≡ some i
      → m.execute (insert_user k) t ≡ some (no_result, t)
  pub selects_user :
      (t : m.Tables) (k : Bytes)
      → m.execute (select_user k) t ≡ some (record no_result { ids = option_list (user t k) }, t)
  pub inserts_message :
      (t : m.Tables) (k : Bytes) (i : ℕ) (content : Bytes)
      → user t k ≡ some i
      → (id : ℕ) × (t' : m.Tables) × (m.execute (insert_message i content) t
          ≡ some (record no_result { affected_rows = 1; last_insert_id = id }, t'))
        × ((j : Bytes) → user t' j ≡ user t j)
        × ((u : ℕ)
            → stored t' u ≡ (
                if i == u
                then stored t u ++ (record { content = content; db_index = id }) ∷ []
                else stored t u))
  pub refuses_message :
      (t : m.Tables) (i : ℕ) (content : Bytes)
      → ((k : Bytes) → user t k ≢ some i)
      → m.execute (insert_message i content) t ≡ none
  pub selects_messages :
      (t : m.Tables) (i : ℕ)
      → m.execute (select_messages i) t ≡ some (record no_result { messages = stored t i }, t)
  pub deletes_messages :
      (t : m.Tables) (ids : List ℕ)
      → (r : Results) × (t' : m.Tables) × (m.execute (delete_messages ids) t ≡ some (r, t'))
        × ((j : Bytes) → user t' j ≡ user t j)
        × ((u : ℕ) → stored t' u ≡ without ids (stored t u))
