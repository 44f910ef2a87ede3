-- ===== src/Database/Queue/Serial.antt =====
-- Concurrent callers see a database that runs one request after the other, first come first served.
use mathlib.Core.List.{reverse, reverse-cons, reverse-append, map-append, append_assoc}
use mathlib.Core.Path.{subst}
use mydak_server.Base.{
  ◌≡◌, ◌≢◌, refl, ap, sym, ◌∙◌, List, [], ◌∷◌, ◌++◌, map, Option, none, some, arith, Option-cases,
  inl, inr, ◌>>=◌,
}
use mydak_server.Database.{Request, Results, Mariadb}
use mydak_server.Database.Queue.{
  Loop, back, Event, Queue, try_send, add_request, wait_until_non_empty, execute_back, signal_back,
  turn_in, turn, adds, turns, step, run, start_queue,
}

pub back-ne : (r : Request) (rs : List Request) → back (r ∷ rs) ≢ none
unfolding back
back-ne r rs h = elim (Option-cases (back rs)) [ inl e ↦ ground arith | inr (p, e) ↦ ground arith ]

pub back-append : (before : List Request) (r : Request) → back (before ++ r ∷ []) ≡ some (before, r)
unfolding back
back-append [] r = refl
back-append (x ∷ before) r = rw (back-append before r) refl

-- `back` splits off the last request.
pub back-inv :
    (rs before : List Request) (r : Request) → back rs ≡ some (before, r) → rs ≡ before ++ r ∷ []
unfolding back
back-inv [] before r h = cc
back-inv (x ∷ []) before r h = ground arith
back-inv (x ∷ y ∷ rs) before r h = elim (Option-cases (back (y ∷ rs))) [
  | inl e ↦ absurd (back-ne y rs e)
  | inr ((u, l), e) ↦ ground (arith, back-inv (y ∷ rs) u l e)
]

module _ (m : Mariadb) where
  open m use {Tables, execute}

  -- Executing requests one by one, in order.
  unfoldable pub serial : List Request → Tables → Option (List (Request × Results) × Tables)
  serial [] tables = some ([], tables)
  serial (r ∷ rs) tables = do
    (result, after) ← execute r tables
    (answers, last) ← serial rs after
    some ((r, result) ∷ answers, last)

  abbrev pub requests : List (Request × Results) → List Request
  requests = map (λ a. a.0)

  serial-append_one :
      (rs : List Request) (r : Request) (answers : List (Request × Results)) (result : Results)
      (first last next : Tables)
      → serial rs first ≡ some (answers, last)
      → execute r last ≡ some (result, next)
      → serial (rs ++ r ∷ []) first ≡ some (answers ++ (r, result) ∷ [], next)
  unfolding serial
  serial-append_one [] r answers result first last next s e = ground arith
  serial-append_one (x ∷ rs) r answers result first last next s e =
      elim (Option-cases (execute x first)) [
        | inl bad ↦ absurd (ground arith)
        | inr ((y, mid), ran) ↦ elim (Option-cases (serial rs mid)) [
          | inl bad ↦ absurd (ground arith)
          | inr ((ys, end), rest) ↦
              ground (arith, serial-append_one rs r ys result mid last next (ground arith) e)
        ]
      ]

  -- What the state of the loop says of the entries, the answers and the tables. While a result is
  -- being signalled, its request has been executed and stands at the back.
  abbrev pub Stands : Tables → Loop → List Request → List (Request × Results) → Tables → Type 0
  Stands first Loop.waiting entries answers last =
      (entries ≡ []) × (serial (requests answers) first ≡ some (answers, last))
  Stands first Loop.executing entries answers last =
      (entries ≢ []) × (serial (requests answers) first ≡ some (answers, last))
  Stands first (Loop.signalling result) entries answers last =
      (before : List Request) × (r : Request) × (entries ≡ before ++ r ∷ [])
      × (serial (requests answers ++ r ∷ []) first ≡ some (answers ++ (r, result) ∷ [], last))
  Stands first Loop.stopped entries answers last =
      (before : List Request) × (r : Request) × (entries ≡ before ++ r ∷ [])
      × (serial (requests answers) first ≡ some (answers, last))
      × (execute r last ≡ none)

  -- Every request that was added is answered or still queued, in the order of arrival, and the answers and
  -- the tables are those of running the requests one after the other.
  pub record IsSerial (first : Tables) (q : Queue m) : Type 0 where
    pub in_order : requests q.answered ++ reverse q.lock_channels ≡ q.added
    pub stands : Stands first q.loop q.lock_channels q.answered q.tables

  try_send-Stands :
      (l : Loop) (first last : Tables) (r : Request) (entries : List Request)
      (answers : List (Request × Results))
      → Stands first l entries answers last
      → Stands first (try_send m l) (r ∷ entries) answers last
  unfolding try_send
  try_send-Stands Loop.waiting first last r entries answers (e, s) = (λ c. cc, s)
  try_send-Stands Loop.executing first last r entries answers (e, s) = (λ c. cc, s)
  try_send-Stands (Loop.signalling result) first last r entries answers (before, x, e, s) =
      (r ∷ before, x, rw e, s)
  try_send-Stands Loop.stopped first last r entries answers (before, x, e, s, bad) =
      (r ∷ before, x, rw e, s, bad)

  add_request-IsSerial :
      (first : Tables) (r : Request) (q : Queue m)
      → IsSerial first q
      → IsSerial first (add_request m r q)
  unfolding add_request
  add_request-IsSerial first r q h = record {
    in_order = rw (reverse-cons r q.lock_channels, ← append_assoc, h.in_order) refl;
    stands = try_send-Stands q.loop first q.tables r q.lock_channels q.answered h.stands;
  }

  -- `back` finds an entry wherever the loop looks for one.
  back_of_ne :
      (entries : List Request)
      → entries ≢ []
      → (before : List Request) × (r : Request) × (back entries ≡ some (before, r))
        × (entries ≡ before ++ r ∷ [])
  back_of_ne [] h = absurd (h refl)
  back_of_ne (x ∷ rs) h = elim (Option-cases (back (x ∷ rs))) [
    | inl e ↦ absurd (back-ne x rs e)
    | inr ((before, r), e) ↦ (before, r, e, back-inv (x ∷ rs) before r e)
  ]

  execute_back-IsSerial :
      (first : Tables) (q : Queue m)
      → requests q.answered ++ reverse q.lock_channels ≡ q.added
      → Stands first Loop.executing q.lock_channels q.answered q.tables
      → IsSerial first (execute_back m q)
  unfolding execute_back
  execute_back-IsSerial first q order (filled, s) =
      let (before, r, found, split) = back_of_ne q.lock_channels filled in
      elim (Option-cases (execute r q.tables)) [
        | inl bad ↦
            rw (found, execute_back, bad)
              (record { in_order = order; stands = (before, r, split, s, bad) })
        | inr ((result, next), ran) ↦
            rw (found, execute_back, ran)
              (record {
                in_order = order;
                stands = (
                  before,
                  r,
                  split,
                  serial-append_one (requests q.answered) r q.answered result first q.tables next s
                      ran,
                );
              })
      ]

  wait-Stands :
      (first last : Tables) (entries : List Request) (answers : List (Request × Results))
      → serial (requests answers) first ≡ some (answers, last)
      → Stands first (wait_until_non_empty m entries) entries answers last
  unfolding wait_until_non_empty
  wait-Stands first last [] answers s = (refl, s)
  wait-Stands first last (r ∷ rs) answers s = ((λ c. cc), s)

  answer_order :
      (answers : List (Request × Results)) (result : Results) (before entries added : List Request)
      (r : Request)
      → entries ≡ before ++ r ∷ []
      → requests answers ++ reverse entries ≡ added
      → requests (answers ++ (r, result) ∷ []) ++ reverse before ≡ added
  answer_order answers result before entries added r split order =
      ap (λ t. t ++ reverse before) (map-append _ answers ((r, result) ∷ []))
      ∙ append_assoc (requests answers) (r ∷ []) (reverse before)
      ∙ ap (λ t. requests answers ++ t) (sym (ap reverse split ∙ reverse-append before (r ∷ [])))
      ∙ order

  signal_back-IsSerial :
      (first : Tables) (result : Results) (q : Queue m)
      → requests q.answered ++ reverse q.lock_channels ≡ q.added
      → Stands first (Loop.signalling result) q.lock_channels q.answered q.tables
      → IsSerial first (signal_back m result q)
  unfolding signal_back
  signal_back-IsSerial first result q order (before, r, split, s) =
      rw (ap back split ∙ back-append before r, signal_back)
        (record {
          in_order = answer_order q.answered result before q.lock_channels q.added r split order;
          stands =
              wait-Stands first q.tables before (q.answered ++ (r, result) ∷ [])
                (rw (map-append (λ (a : Request × Results). a.0) q.answered ((r, result) ∷ [])) s);
        })

  turn_in-IsSerial :
      (first : Tables) (l : Loop) (q : Queue m)
      → q.loop ≡ l
      → IsSerial first q
      → IsSerial first (turn_in m l q)
  unfolding turn_in
  turn_in-IsSerial first Loop.waiting q e h = h
  turn_in-IsSerial first Loop.executing q e h =
      execute_back-IsSerial first q h.in_order
        (subst (λ k. Stands first k q.lock_channels q.answered q.tables) e h.stands)
  turn_in-IsSerial first (Loop.signalling result) q e h =
      signal_back-IsSerial first result q h.in_order
        (subst (λ k. Stands first k q.lock_channels q.answered q.tables) e h.stands)
  turn_in-IsSerial first Loop.stopped q e h = h

  step-IsSerial :
      (first : Tables) (q : Queue m) (e : Event m) → IsSerial first q → IsSerial first (step m q e)
  unfolding step turn
  step-IsSerial first q (adds r) h = add_request-IsSerial first r q h
  step-IsSerial first q turns h = turn_in-IsSerial first q.loop q refl h

  run_keeps-IsSerial :
      (first : Tables) (q : Queue m) (es : List (Event m))
      → IsSerial first q
      → IsSerial first (run m q es)
  unfolding run
  run_keeps-IsSerial first q [] h = h
  run_keeps-IsSerial first q (e ∷ es) h =
      run_keeps-IsSerial first (step m q e) es (step-IsSerial first q e h)

  -- For any database and any interleaving of callers that add requests with turns of the loop,
  -- starting from an empty queue: the answered requests followed by the queued ones are all those
  -- added, in order of arrival; the answers and the tables are those of a run of one request after
  -- the other; the loop waits only when nothing is queued, and stops only at a request that fails.
  pub run-IsSerial :
      (first : Tables) (es : List (Event m)) → IsSerial first (run m (start_queue m first) es)
  unfolding start_queue serial
  run-IsSerial first es =
      run_keeps-IsSerial first _ es (record { in_order = refl; stands = (refl, refl) })
