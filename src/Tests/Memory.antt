-- ===== src/Tests/Memory.antt =====
-- A database in memory that behaves as `Documented` says of MariaDB: users with ids from 1 on and
-- messages in the order of insertion.
use mathlib.Core.Option
use mydak_server.Base.{
  ℕ, suc, ◌≡◌, ◌≢◌, refl, ◌⊎◌, inl, inr, Bool, true, false, ◌||◌, List, [], ◌∷◌, ◌++◌, Option, none,
  some, arith, Bytes, bytes_eq, bytes_eq_iff, ◌==◌, if◌then◌else◌, find, assign, find-assign,
  Option-cases, Bool-cases,
}
use mydak_server.Database.{
  Request, Results, DbMessage, Mariadb, insert_user, select_user, insert_message, select_messages,
  delete_messages,
}
use mydak_server.Database.Operations.Tables.{Documented, no_result, option_list, is_among, without}

pub record Rows : Type 0 where
  pub users : List (Bytes × ℕ)
  pub messages : List (ℕ × DbMessage)
  pub next : ℕ

abbrev pub user_of : List (Bytes × ℕ) → Bytes → Option ℕ
user_of users k = Option.map suc (find k users)

abbrev pub is_id : ℕ → Option ℕ → Bool
is_id i none = false
is_id i (some j) = j == i

unfoldable pub has_id : ℕ → List (Bytes × ℕ) → List (Bytes × ℕ) → Bool
has_id i all [] = false
has_id i all ((j, n) ∷ users) = is_id i (user_of all j) || has_id i all users

unfoldable pub messages_of : ℕ → List (ℕ × DbMessage) → List DbMessage
messages_of u [] = []
messages_of u ((w, x) ∷ rows) = if w == u then x ∷ messages_of u rows else messages_of u rows

unfoldable pub drop_rows : List ℕ → List (ℕ × DbMessage) → List (ℕ × DbMessage)
drop_rows ids [] = []
drop_rows ids ((w, x) ∷ rows) =
    if is_among x.db_index ids then drop_rows ids rows else (w, x) ∷ drop_rows ids rows

unfoldable pub insert_new : Bytes → Rows → Option ℕ → Results × Rows
insert_new k t (some i) = (no_result, t)
insert_new k t none = (
  record no_result { affected_rows = 1; last_insert_id = suc t.next },
  record t { users = assign k t.next t.users; next = suc t.next },
)

abbrev pub appended : ℕ → Bytes → Rows → Rows
appended i content t = record t {
  messages = t.messages ++ (i, record { content = content; db_index = t.next }) ∷ [];
  next = suc t.next;
}

unfoldable pub run_sql : Request → Rows → Option (Results × Rows)
unfolding has_id insert_new
run_sql (insert_user k) t = some (insert_new k t (user_of t.users k))
run_sql (select_user k) t = some (record no_result { ids = option_list (user_of t.users k) }, t)
run_sql (insert_message i content) t =
    if has_id i t.users t.users
    then some
        (record no_result { affected_rows = 1; last_insert_id = t.next }, appended i content t)
    else none
run_sql (select_messages i) t = some (record no_result { messages = messages_of i t.messages }, t)
run_sql (delete_messages ids) t = some (no_result, record t { messages = drop_rows ids t.messages })

abbrev pub memory : Mariadb
memory = record { Tables = Rows; execute = run_sql }

abbrev pub no_rows : Rows
no_rows = record { users = []; messages = []; next = 0 }

pub has_id_of :
    (i : ℕ) (k : Bytes) (all users : List (Bytes × ℕ)) (n : ℕ)
    → find k users ≡ some n
    → user_of all k ≡ some i
    → has_id i all users ≡ true
unfolding has_id find
has_id_of i k all [] n f u = cc
has_id_of i k all ((j, w) ∷ users) n f u = elim (Bool-cases (bytes_eq j k)) [
  | inl same ↦ let e = (bytes_eq_iff j k).0 same in rw (e, u) (ground arith)
  | inr other ↦ ground (arith, has_id_of i k all users n (ground arith) u)
]

pub has_id_not :
    (i : ℕ) (all users : List (Bytes × ℕ))
    → ((k : Bytes) → user_of all k ≢ some i)
    → has_id i all users ≡ false
unfolding has_id
has_id_not i all [] h = refl
has_id_not i all ((j, w) ∷ users) h = elim (Option-cases (user_of all j)) [
  | inl e ↦ rw e (has_id_not i all users h)
  | inr (n, e) ↦ ground (arith, has_id_not i all users h, e, h j)
]

pub messages_of-append :
    (u w : ℕ) (x : DbMessage) (rows : List (ℕ × DbMessage))
    → messages_of u (rows ++ (w, x) ∷ [])
      ≡ (if w == u then messages_of u rows ++ x ∷ [] else messages_of u rows)
unfolding messages_of
messages_of-append u w x [] = refl
messages_of-append u w x ((v, y) ∷ rows) = ground (arith, messages_of-append u w x rows)

pub messages_of-drop_rows :
    (u : ℕ) (ids : List ℕ) (rows : List (ℕ × DbMessage))
    → messages_of u (drop_rows ids rows) ≡ without ids (messages_of u rows)
unfolding messages_of drop_rows
messages_of-drop_rows u ids [] = refl
messages_of-drop_rows u ids ((w, x) ∷ rows) = ground (arith, messages_of-drop_rows u ids rows)

pub insert_known :
    (t : Rows) (k : Bytes) (i : ℕ) (content : Bytes)
    → user_of t.users k ≡ some i
    → (find k t.users ≡ none) ⊎ ((n : ℕ) × (find k t.users ≡ some n))
    → run_sql (insert_message i content) t
      ≡ some (record no_result { affected_rows = 1; last_insert_id = t.next }, appended i content t)
unfolding run_sql
insert_known t k i content e (inl missing) = ground arith
insert_known t k i content e (inr (n, f)) = ground (arith, has_id_of i k t.users t.users n f e)

unfoldable pub memory-Documented : Documented memory
unfolding run_sql
memory-Documented = record {
  user = λ t k. user_of t.users k;
  stored = λ t u. messages_of u t.messages;
  ids_positive = λ t k i e. ground arith;
  inserts_user = λ t k e. (
    suc t.next,
    record t { users = assign k t.next t.users; next = suc t.next },
    ground arith,
    omega arith,
    λ j. ground (arith, find-assign k j t.next t.users),
    λ u. refl,
  );
  ignores_user = λ t k i e. ground arith;
  selects_user = λ t k. refl;
  inserts_message = λ t k i content e. (
    t.next,
    appended i content t,
    insert_known t k i content e (Option-cases (find k t.users)),
    λ j. refl,
    λ u. messages_of-append u i _ t.messages,
  );
  refuses_message = λ t i content h. ground (arith, has_id_not i t.users t.users h);
  selects_messages = λ t i. refl;
  deletes_messages = λ t ids. (
    no_result,
    record t { messages = drop_rows ids t.messages },
    refl,
    λ j. refl,
    λ u. messages_of-drop_rows u ids t.messages,
  );
}
