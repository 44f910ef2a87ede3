-- ===== src/Database/Queue.antt =====
-- The queue of requests of core/database/database.cpp: callers put requests at the front of
-- `lock_channels`, one coroutine takes them from the back and executes them one at a time.
pub mod Serial
pub mod Progress
pub mod Kept
pub mod Storage
use mydak_server.Base.{ℕ, List, [], ◌∷◌, ◌++◌, Option, none, some}
use mydak_server.Database.{Request, Results, Mariadb}

-- Where `async_execute_queued_loop` stands: in `request_add_channel.async_receive`, in
-- `connection.async_execute`, in `channel.async_send` with the result at hand, or past its end.
pub data Loop : Type 0 where
  waiting executing : Loop
  signalling : Results → Loop
  stopped : Loop

-- The last element of a list with what stands before it: `back` and `pop_back` of the deque.
unfoldable pub back : List Request → Option (List Request × Request)
back [] = none
back (r ∷ rs) = elim (back rs) [
  | none ↦ some ([], r)
  | some (before, last) ↦ some (r ∷ before, last)
]

module _ (m : Mariadb) where
  open m use {Tables, execute}

  -- `added` and `answered` record the history: the requests in the order in which they came, and
  -- those whose callers were resumed, with their results.
  pub record Queue : Type 0 where
    pub lock_channels : List Request
    pub loop : Loop
    pub tables : Tables
    pub added : List Request
    pub answered : List (Request × Results)

  -- `request_add_channel.try_send`: the channel has no buffer, so the signal is lost unless the
  -- loop is waiting for it.
  unfoldable pub try_send : Loop → Loop
  try_send Loop.waiting = Loop.executing
  try_send l = l

  unfoldable pub add_request : Request → Queue → Queue
  unfolding try_send
  add_request r q = record q {
    lock_channels = r ∷ q.lock_channels;
    loop = try_send q.loop;
    added = q.added ++ r ∷ [];
  }

  -- What the loop does next, at the top of its body.
  unfoldable pub wait_until_non_empty : List Request → Loop
  wait_until_non_empty [] = Loop.waiting
  wait_until_non_empty (r ∷ rs) = Loop.executing

  -- The statement at the back has been run. An exception leaves the loop for good.
  unfoldable pub execute_back : Queue → Queue
  execute_back q = elim (back q.lock_channels) [
    | none ↦ q
    | some (before, r) ↦ elim (execute r q.tables) [
      | none ↦ record q { loop = Loop.stopped }
      | some (result, tables) ↦ record q { loop = Loop.signalling result; tables = tables }
    ]
  ]

  -- The caller at the back has received the signal; its entry is popped.
  unfoldable pub signal_back : Results → Queue → Queue
  signal_back result q = elim (back q.lock_channels) [
    | none ↦ q
    | some (before, r) ↦ record q {
      lock_channels = before;
      loop = wait_until_non_empty before;
      answered = q.answered ++ (r, result) ∷ [];
    }
  ]

  unfoldable pub turn_in : Loop → Queue → Queue
  unfolding execute_back signal_back
  turn_in Loop.waiting q = q
  turn_in Loop.executing q = execute_back q
  turn_in (Loop.signalling result) q = signal_back result q
  turn_in Loop.stopped q = q

  -- The loop runs on to its next `co_await`.
  unfoldable pub turn : Queue → Queue
  unfolding turn_in
  turn q = turn_in q.loop q

  -- Callers and the loop take turns in any order.
  pub data Event : Type 0 where
    adds : Request → Event
    turns : Event

  unfoldable pub step : Queue → Event → Queue
  step q (adds r) = add_request r q
  step q turns = turn q

  unfoldable pub run : Queue → List Event → Queue
  run q [] = q
  run q (e ∷ es) = run (step q e) es

  -- `database::start` has just spawned the loop, and the loop has found the deque empty.
  unfoldable pub start_queue : Tables → Queue
  start_queue tables = record {
    lock_channels = [];
    loop = Loop.waiting;
    tables = tables;
    added = [];
    answered = [];
  }
