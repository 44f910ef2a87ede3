-- ===== src/Tests/Parts.antt =====
-- The slots, the frames and the queue of statements at concrete inputs.
use mydak_server.Base.{
  ◌+◌, ◌^◌, ◌<◌, ◌≡◌, refl, List, [], ◌∷◌, ◌++◌, true, some, none, arith, find, assign, bytes_eq,
  Bytes, length,
}
use mydak_server.ClientIndex.{ClientIndex}
use mydak_server.Slot.{clear, is_empty, set_value, get_slot_generation}
use mydak_server.SlotVector.{SlotVector, slot_at, reuse, emplace_back, pop}
use mydak_server.SlotVector.Vacancies.{IsValid, Placed, emplace_back-Placed, pop-IsValid}
use mydak_server.SlotVector.Doubled.{pop_twice}
use mydak_server.SlotVector.Stale.{added, change, changes, resolve, resolve-pop_stale}
use mydak_server.Client.{Client}
use mydak_server.Wire.{
  Endian, Received, receive, queue_message, size_bytes, store, swap_if_big, byteswap, from_bytes,
  to_bytes,
}
use mydak_server.Wire.Size.{AreBytes}
use mydak_server.Wire.Frame.{IsFrame, frame_bytes, receive-frame_bytes, receive-inv}
use mydak_server.Wire.Queued.{queue_message-injective}
use mydak_server.Database.{Request, Results, insert_user, insert_message, select_user}
use mydak_server.Database.Queue.{
  Loop, Queue, adds, turns, Event, wait_until_non_empty, run, start_queue,
}
use mydak_server.Database.Queue.Serial.{serial, IsSerial, run-IsSerial}
use mydak_server.Database.Queue.Progress.{rounds, Drained, drains, failure_ends_service}
use mydak_server.Database.Operations.{Database}
use mydak_server.Database.Operations.Tables.{no_result}
use mydak_server.Tests.Memory.{Rows, memory, no_rows, run_sql, has_id, insert_new}
use mydak_server.Tests.Fixtures.{
  alice, bob, hello, alice_client, alice_slot, one_slot, one_slot-IsValid,
}

-- Slot 0 is vacant.
vacated-IsValid : IsValid (pop 0 one_slot)
vacated-IsValid = pop-IsValid 0 one_slot alice_slot alice_client one_slot-IsValid refl refl

short_vector : length (pop 0 one_slot).clients + 1 < 2 ^ 64
unfolding pop
short_vector = omega arith

emplace_back-Placed_example :
    (w : SlotVector Client) × (c : ClientIndex) × (emplace_back alice_client (pop 0 one_slot)
      ≡ some (w, c))
    × Placed alice_client (pop 0 one_slot) w c
emplace_back-Placed_example =
    emplace_back-Placed alice_client (pop 0 one_slot) vacated-IsValid short_vector

-- The vector after another client has taken the slot.
abbrev reoccupied : SlotVector Client
reoccupied = record {
  clients = (record { object = some alice_client; generation = 2 }) ∷ [];
  empty_slots = [];
  global_index = 1;
}

reoccupied-changes : changes (added alice_client ∷ []) (pop 0 one_slot) ≡ some reoccupied
unfolding changes change emplace_back reuse pop clear set_value is_empty get_slot_generation
reoccupied-changes = refl

resolve-pop_stale_example : resolve reoccupied 0 1 ≡ none
resolve-pop_stale_example =
    resolve-pop_stale 0 1 (added alice_client ∷ []) one_slot reoccupied alice_slot refl refl
      (omega arith) reoccupied-changes

hello-IsFrame : IsFrame bob hello
hello-IsFrame = record { key_size = refl; not_short = omega arith; not_long = omega arith }

receive-frame_bytes_example :
    receive Endian.little (frame_bytes bob hello ++ 9 ∷ []) ≡ Received.frame bob hello (9 ∷ [])
receive-frame_bytes_example = receive-frame_bytes Endian.little bob hello (9 ∷ []) hello-IsFrame

frame_bytes-AreBytes : AreBytes (frame_bytes bob hello ++ 9 ∷ [])
unfolding to_bytes
frame_bytes-AreBytes = omega arith

receive-inv_example :
    (frame_bytes bob hello ++ 9 ∷ [] ≡ frame_bytes bob hello ++ 9 ∷ []) × IsFrame bob hello
receive-inv_example =
    receive-inv Endian.little (frame_bytes bob hello ++ 9 ∷ []) bob hello (9 ∷ [])
      frame_bytes-AreBytes (receive-frame_bytes Endian.little bob hello (9 ∷ []) hello-IsFrame)

abbrev what_follows : Bytes
what_follows = 7 ∷ []

-- The byte order of the machine makes no difference.
queued_alike :
    queue_message Endian.little alice hello ++ what_follows
    ≡ queue_message Endian.big alice hello ++ what_follows
unfolding queue_message size_bytes store swap_if_big byteswap from_bytes to_bytes
queued_alike = refl

queue_message-injective_example : (alice ≡ alice) × (hello ≡ hello) × (what_follows ≡ what_follows)
queue_message-injective_example =
    queue_message-injective Endian.little Endian.big alice alice hello hello what_follows
      what_follows refl refl (omega arith) (omega arith) queued_alike

abbrev events : List (Event memory)
events = adds (insert_user alice) ∷ turns ∷ adds (select_user alice) ∷ turns ∷ turns ∷ []

run-IsSerial_example : IsSerial memory no_rows (run memory (start_queue memory no_rows) events)
run-IsSerial_example = run-IsSerial memory no_rows events

-- A new user and a message for it.
abbrev loaded : Queue memory
loaded = record {
  lock_channels = insert_message 1 hello ∷ insert_user alice ∷ [];
  loop = Loop.executing;
  tables = no_rows;
  added = insert_user alice ∷ insert_message 1 hello ∷ [];
  answered = [];
}

abbrev loaded_answers : List (Request × Results)
loaded_answers =
    (insert_user alice, record no_result { affected_rows = 1; last_insert_id = 1 })
    ∷ (insert_message 1 hello, record no_result { affected_rows = 1; last_insert_id = 1 })
    ∷ []

abbrev loaded_rows : Rows
loaded_rows = record {
  users = (alice, 0) ∷ [];
  messages = (1, record { content = hello; db_index = 1 }) ∷ [];
  next = 2;
}

loaded-serial :
    serial memory (insert_user alice ∷ insert_message 1 hello ∷ []) no_rows
    ≡ some (loaded_answers, loaded_rows)
unfolding serial run_sql has_id insert_new find assign bytes_eq
loaded-serial = refl

executes : loaded.loop ≡ wait_until_non_empty memory loaded.lock_channels
unfolding wait_until_non_empty
executes = refl

drains_example : Drained memory (run memory loaded (rounds memory 2)) loaded_answers loaded_rows
drains_example =
    drains memory (insert_user alice ∷ insert_message 1 hello ∷ []) loaded loaded_answers
      loaded_rows refl executes loaded-serial

-- The message of a user that has no row.
abbrev doomed : Queue memory
doomed = record {
  lock_channels = insert_message 7 hello ∷ [];
  loop = Loop.executing;
  tables = no_rows;
  added = insert_message 7 hello ∷ [];
  answered = [];
}

doomed-fails : run_sql (insert_message 7 hello) no_rows ≡ none
unfolding run_sql has_id
doomed-fails = refl

failure_ends_service_example :
    ((run memory doomed (turns ∷ adds (select_user alice) ∷ turns ∷ [])).answered ≡ [])
    × ((run memory doomed (turns ∷ adds (select_user alice) ∷ turns ∷ [])).tables ≡ no_rows)
failure_ends_service_example =
    failure_ends_service memory doomed [] (insert_message 7 hello)
      (adds (select_user alice) ∷ turns ∷ []) refl refl doomed-fails

abbrev empty_database : Database memory
empty_database = record { running = true; connected = true; tables = no_rows }

pop_twice_example :
    (w w' : SlotVector Client) × (c c' : ClientIndex) × (emplace_back alice_client
        (pop 0 (pop 0 one_slot))
      ≡ some (w, c))
    × (emplace_back alice_client w ≡ some (w', c'))
    × (c.index ≡ 0)
    × (c'.index ≡ 0)
    × (slot_at w' 0
        ≡ some (set_value alice_client (set_value alice_client (clear (clear alice_slot)))))
pop_twice_example = pop_twice 0 alice_client alice_client one_slot alice_slot refl refl
