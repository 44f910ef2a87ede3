-- ===== src/Database/Queue/Progress.antt =====
-- When the queue of core/database/database.cpp gets work done, and when it never does again.
use mathlib.Core.List.{reverse, reverse-cons, append_assoc, append-nil}
use mathlib.Core.Path.{subst}
use mydak_server.Base.{
  ℕ, zero, suc, ◌≡◌, refl, ap, sym, ◌∙◌, List, [], ◌∷◌, ◌++◌, none, some, arith, Option-cases, inl,
  inr, length,
}
use mydak_server.Database.{Request, Results, Mariadb}
use mydak_server.Database.Queue.{
  Loop, back, Event, Queue, try_send, add_request, wait_until_non_empty, execute_back, signal_back,
  turn_in, turn, adds, turns, step, run,
}
use mydak_server.Database.Queue.Serial.{serial, back-append}

module _ (m : Mariadb) where
  open m use {Tables, execute}

  step_stopped :
      (q : Queue m) (e : Event m)
      → q.loop ≡ Loop.stopped
      → ((step m q e).loop ≡ Loop.stopped)
        × ((step m q e).answered ≡ q.answered)
        × ((step m q e).tables ≡ q.tables)
  unfolding step add_request try_send turn turn_in
  step_stopped q (adds r) h = ground arith
  step_stopped q turns h = ground arith

  -- A loop that an exception has ended resumes no caller and runs no statement ever again.
  pub stopped_forever :
      (q : Queue m) (es : List (Event m))
      → q.loop ≡ Loop.stopped
      → ((run m q es).loop ≡ Loop.stopped)
        × ((run m q es).answered ≡ q.answered)
        × ((run m q es).tables ≡ q.tables)
  unfolding run
  stopped_forever q [] h = (h, refl, refl)
  stopped_forever q (e ∷ es) h =
      let (l, a, t) = step_stopped q e h in
      let (l', a', t') = stopped_forever (step m q e) es l in (l', a' ∙ a, t' ∙ t)

  fails :
      (q : Queue m) (before : List Request) (r : Request)
      → q.loop ≡ Loop.executing
      → q.lock_channels ≡ before ++ r ∷ []
      → execute r q.tables ≡ none
      → (step m q turns).loop ≡ Loop.stopped
        × (step m q turns).answered ≡ q.answered
        × (step m q turns).tables ≡ q.tables
  unfolding step turn turn_in execute_back
  fails q before r l e bad = ground (arith, back-append before r, ap back e)

  -- If the loop executes the back of the queue and that request fails, then after that turn,
  -- whatever requests and turns follow, no caller is answered any more and the tables stay as they
  -- are.
  pub failure_ends_service :
      (q : Queue m) (before : List Request) (r : Request) (es : List (Event m))
      → q.loop ≡ Loop.executing
      → q.lock_channels ≡ before ++ r ∷ []
      → execute r q.tables ≡ none
      → ((run m q (turns ∷ es)).answered ≡ q.answered) × ((run m q (turns ∷ es)).tables ≡ q.tables)
  unfolding run
  failure_ends_service q before r es l e bad =
      let (l', a, t) = fails q before r l e bad in
      let (l'', a', t') = stopped_forever (step m q turns) es l' in (a' ∙ a, t' ∙ t)

  -- Two turns of the loop for each of `n` requests, with no new request.
  abbrev pub rounds : ℕ → List (Event m)
  rounds zero = []
  rounds (suc n) = turns ∷ turns ∷ rounds n

  wait_for-append :
      (before : List Request) (r : Request)
      → wait_until_non_empty m (before ++ r ∷ []) ≡ Loop.executing
  unfolding wait_until_non_empty
  wait_for-append [] r = refl
  wait_for-append (x ∷ before) r = refl

  abbrev after_answer : Queue m → List Request → Request → Results → Tables → Queue m
  after_answer q before r result next = record q {
    lock_channels = before;
    loop = wait_until_non_empty m before;
    tables = next;
    answered = q.answered ++ (r, result) ∷ [];
  }

  answer_one :
      (q : Queue m) (before : List Request) (r : Request) (result : Results) (next : Tables)
      → q.loop ≡ Loop.executing
      → q.lock_channels ≡ before ++ r ∷ []
      → execute r q.tables ≡ some (result, next)
      → step m (step m q turns) turns ≡ after_answer q before r result next
  unfolding step turn turn_in execute_back signal_back
  answer_one q before r result next l e ran = ground (arith, back-append before r, ap back e)

  -- The loop sleeps with nothing queued.
  abbrev pub Drained : Queue m → List (Request × Results) → Tables → Type 0
  Drained q answers last =
      (q.lock_channels ≡ []) × (q.loop ≡ Loop.waiting) × (q.answered ≡ answers) × (q.tables ≡ last)

  -- From a loop that executes the back of a queue, or waits at an empty one, if running the queued
  -- requests in order of arrival succeeds, then after two turns for each of them all are answered,
  -- with the answers and the tables of that run, the queue is empty and the loop waits.
  pub drains :
      (rs : List Request) (q : Queue m) (answers : List (Request × Results)) (last : Tables)
      → q.lock_channels ≡ reverse rs
      → q.loop ≡ wait_until_non_empty m q.lock_channels
      → serial m rs q.tables ≡ some (answers, last)
      → Drained (run m q (rounds (length rs))) (q.answered ++ answers) last
  unfolding run serial wait_until_non_empty
  drains [] q answers last e l s = ground (arith, append-nil q.answered)
  drains (r ∷ rs) q answers last e l s =
      let before = reverse rs in
      let split = e ∙ reverse-cons r rs in
      let busy = l ∙ ap (wait_until_non_empty m) split ∙ wait_for-append before r in
      elim (Option-cases (execute r q.tables)) [
        | inl bad ↦ absurd (ground arith)
        | inr ((result, next), ran) ↦ elim (Option-cases (serial m rs next)) [
          | inl bad ↦ absurd (ground arith)
          | inr ((rest, end), served) ↦
              subst (λ t. Drained (run m t (rounds (length rs))) (q.answered ++ answers) last)
                (sym (answer_one q before r result next busy split ran))
                (let (empty, asleep, answered, tables) =
                    drains rs (after_answer q before r result next) rest end refl refl served in
                  (
                    empty,
                    asleep,
                    answered
                        ∙ append_assoc q.answered ((r, result) ∷ []) rest
                        ∙ ap (◌++◌ q.answered) (ground arith),
                    tables ∙ ground arith,
                  ))
        ]
      ]
