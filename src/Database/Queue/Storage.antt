-- ===== src/Database/Queue/Storage.antt =====
-- What MariaDB documents of the statements of core/database/database.cpp, through the queue: a
-- message that was stored, and a later selection.
use mydak_server.Base.{
  ℕ, zero, suc, ◌<◌, ◌≡◌, refl, ap, ◌∙◌, inl, inr, true, List, [], ◌∷◌, ◌++◌, some, Option-cases,
  arith, Bytes, length, get_elem?, get_elem?_lt, ◌>>=◌,
}
use mydak_server.Database.{Request, Results, Mariadb, insert_message, select_messages}
use mydak_server.Database.Queue.{
  Loop, waiting, executing, signalling, stopped, Event, run, start_queue,
}
use mydak_server.Database.Queue.Serial.{serial, requests, Stands, run-IsSerial}
use mydak_server.Database.Operations.Tables.{Documented}
use mydak_server.Database.Queue.Kept.{has_row, Spares, insert-has_row, execute-has_row}

module _ (m : Mariadb) (doc : Documented m) where
  open doc use {user, stored}

  abbrev requested : List (Request × Results) → List Request
  requested = requests m

  serial-cons :
      (r : Request) (rs : List Request) (s : Results) (answers : List (Request × Results))
      (t last : m.Tables)
      → serial m (r ∷ rs) t ≡ some ((r, s) ∷ answers, last)
      → (t' : m.Tables) × (m.execute r t ≡ some (s, t')) × (serial m rs t' ≡ some (answers, last))
  unfolding serial
  serial-cons r rs s answers t last ran = elim (Option-cases (m.execute r t)) [
    | inl bad ↦ absurd (ground arith)
    | inr ((s1, t1), once) ↦ elim (Option-cases (serial m rs t1)) [
      | inl bad ↦ absurd (ground arith)
      | inr ((rest, end), others) ↦ (t1, ground arith, ground arith)
    ]
  ]

  -- A row that is there is read by a later selection.
  later-has_row :
      (answers : List (Request × Results)) (n u id : ℕ) (x : Bytes) (t last : m.Tables)
      (result : Results)
      → serial m (requested answers) t ≡ some (answers, last)
      → has_row x id (stored t u) ≡ true
      → ((i : ℕ) (r : Request) (s : Results)
          → i < n
          → get_elem? answers i ≡ some (r, s)
          → Spares m doc id r)
      → get_elem? answers n ≡ some (select_messages u, result)
      → has_row x id result.messages ≡ true
  later-has_row [] n u id x t last result ran h spares at = cc
  later-has_row ((r, s) ∷ answers) zero u id x t last result ran h spares at =
      let (t1, once, others) = serial-cons r (requested answers) s answers t last ran in
      let e : r ≡ select_messages u = ground arith in
      let f : s ≡ result = ground arith in ground (arith, doc.selects_messages t u)
  later-has_row ((r, s) ∷ answers) (suc n) u id x t last result ran h spares at =
      let (t1, once, others) = serial-cons r (requested answers) s answers t last ran in
      later-has_row answers n u id x t1 last result others
        (execute-has_row m doc r u id x t t1 s once (spares 0 r s (omega arith) refl) h)
        (λ i q a below e. spares (suc i) q a (omega arith) e) at

  -- A message that is stored is read by a later selection.
  inserted-has_row :
      (answers : List (Request × Results)) (j n u : ℕ) (x : Bytes) (t last : m.Tables)
      (inserted result : Results)
      → serial m (requested answers) t ≡ some (answers, last)
      → get_elem? answers j ≡ some (insert_message u x, inserted)
      → j < n
      → ((i : ℕ) (r : Request) (s : Results)
          → j < i
          → i < n
          → get_elem? answers i ≡ some (r, s)
          → Spares m doc inserted.last_insert_id r)
      → get_elem? answers n ≡ some (select_messages u, result)
      → has_row x inserted.last_insert_id result.messages ≡ true
  inserted-has_row [] j n u x t last inserted result ran at before spares end = cc
  inserted-has_row ((r, s) ∷ answers) j zero u x t last inserted result ran at before spares end =
      absurd (omega arith)
  inserted-has_row ((r, s) ∷ answers) zero (suc n) u x t last inserted result ran at before spares
        end =
      let (t1, once, others) = serial-cons r (requested answers) s answers t last ran in
      let e : r ≡ insert_message u x = ground arith in
      let f : s ≡ inserted = ground arith in
      later-has_row answers n u inserted.last_insert_id x t1 last result others
        (insert-has_row m doc u x t t1 inserted (ground arith))
        (λ i q a below k. spares (suc i) q a (omega arith) (omega arith) k) end
  inserted-has_row ((r, s) ∷ answers) (suc j) (suc n) u x t last inserted result ran at before
        spares end =
      let (t1, once, others) = serial-cons r (requested answers) s answers t last ran in
      inserted-has_row answers j n u x t1 last inserted result others at (omega arith)
        (λ i q a after below k. spares (suc i) q a (omega arith) (omega arith) k) end

  serial-prefix :
      (answers more : List (Request × Results)) (rs : List Request) (t last : m.Tables)
      → serial m (requested answers ++ rs) t ≡ some (answers ++ more, last)
      → (t' : m.Tables) × (serial m (requested answers) t ≡ some (answers, t'))
  unfolding serial
  serial-prefix [] more rs t last ran = (t, refl)
  serial-prefix ((r, s) ∷ answers) more rs t last ran =
      let (t1, once, others) =
        serial-cons r (requested answers ++ rs) s (answers ++ more) t last ran in
      let (t2, first) = serial-prefix answers more rs t1 last others in
      (t2, rw (once, ◌>>=◌, first) refl)

  -- The answers are those of a serial run, wherever the loop stands.
  answered-serial :
      (l : Loop) (first last : m.Tables) (entries : List Request)
      (answers : List (Request × Results))
      → Stands m first l entries answers last
      → (t : m.Tables) × (serial m (requested answers) first ≡ some (answers, t))
  answered-serial waiting first last entries answers (e, s) = (last, s)
  answered-serial executing first last entries answers (e, s) = (last, s)
  answered-serial (signalling result) first last entries answers (before, r, e, s) =
      serial-prefix answers ((r, result) ∷ []) (r ∷ []) first last s
  answered-serial stopped first last entries answers (before, r, e, s, bad) = (last, s)

  requested-get_elem? :
      (answers : List (Request × Results)) (more : List Request) (j : ℕ) (r : Request)
      → j < length answers
      → get_elem? (requested answers ++ more) j ≡ some r
      → (s : Results) × (get_elem? answers j ≡ some (r, s))
  requested-get_elem? [] more j r inside at = absurd (omega arith)
  requested-get_elem? ((q, s) ∷ answers) more zero r inside at = (s, ground arith)
  requested-get_elem? ((q, s) ∷ answers) more (suc j) r inside at =
      requested-get_elem? answers more j r (omega arith) at

  -- For a database that behaves as documented and any interleaving of callers with turns of the
  -- loop, starting from an empty queue: if the insertion of a message for a user has come before a
  -- selection of the user's messages that is answered, then the insertion is answered too, and
  -- unless a deletion between the two names the id that it was given, the message is among those
  -- that the selection returns, under that id.
  pub stored_message_is_read :
      (first : m.Tables) (es : List (Event m)) (j n u : ℕ) (x : Bytes) (result : Results)
      → get_elem? (run m (start_queue m first) es).added j ≡ some (insert_message u x)
      → j < n
      → get_elem? (run m (start_queue m first) es).answered n ≡ some (select_messages u, result)
      → ((i : ℕ) (r : Request) (s inserted : Results)
          → get_elem? (run m (start_queue m first) es).answered j
            ≡ some (insert_message u x, inserted)
          → j < i
          → i < n
          → get_elem? (run m (start_queue m first) es).answered i ≡ some (r, s)
          → Spares m doc inserted.last_insert_id r)
      → (inserted : Results) × (get_elem? (run m (start_queue m first) es).answered j
          ≡ some (insert_message u x, inserted))
        × (has_row x inserted.last_insert_id result.messages ≡ true)
  stored_message_is_read first es j n u x result arrived before end spares =
      let q = run m (start_queue m first) es in
      let h = run-IsSerial m first es in
      let below = get_elem?_lt q.answered n (select_messages u, result) end in
      let (inserted, at) =
        requested-get_elem? q.answered _ j (insert_message u x) (omega arith)
          (ap (λ rs. get_elem? rs j) h.in_order ∙ arrived) in
      let (last, ran) = answered-serial q.loop first q.tables q.lock_channels q.answered h.stands in
      (
        inserted,
        at,
        inserted-has_row q.answered j n u x first last inserted result ran at before
            (λ i r s after under k. spares i r s inserted at after under k) end,
      )
