-- ===== src/Tests/Traffic.antt =====
-- Messages between connections that come and go, and through the database, at concrete inputs.
use mathlib.Core.Path.{subst}
use mydak_server.Base.{
  ℕ, zero, suc, ◌<◌, ◌≡◌, ◌≢◌, refl, sym, ap, ◌∙◌, List, [], ◌∷◌, true, none, some, arith, Bytes,
  bytes_eq, find, get_elem?,
}
use mydak_server.Task.{done}
use mydak_server.Wire.{Endian}
use mydak_server.Database.{Request, Results, insert_message, select_messages, delete_messages}
use mydak_server.Database.Operations.Tables.{no_result}
use mydak_server.Database.Queue.{
  Event, adds, turns, run, step, turn, turn_in, execute_back, signal_back, wait_until_non_empty,
  add_request, try_send, back, start_queue,
}
use mydak_server.Database.Queue.Kept.{has_row, Spares}
use mydak_server.Database.Queue.Storage.{stored_message_is_read}
use mydak_server.Server.{Server}
use mydak_server.Server.Logins.{answered, Logins}
use mydak_server.Connection.{partial_key, start}
use mydak_server.Connection.Traffic.{sends}
use mydak_server.Connection.Misdelivery.{Inherited, evicted_key_misdelivers}
use mydak_server.Tests.Memory.{memory, memory-Documented, run_sql, has_id, messages_of, drop_rows}
use mydak_server.Tests.Fixtures.{
  alice, bob, hello, alice_index, alice_rows, one_online, one_online-IsServing, alice_entry,
  bob_offline,
}
use mydak_server.Tests.Fixtures

-- Alice is only sent the one word.
abbrev pub OnlyHello : Bytes → Bytes → Type 0
OnlyHello k x = alice ≡ k → x ≡ hello

nobody_key : partial_key [] ≢ alice
unfolding partial_key
nobody_key e = cc

evicted_key_misdelivers_example :
    (evicted : Server memory) × (start memory Fixtures.sends Endian.little [] true none none
        one_online
      ≡ some (done tt, evicted))
    × Inherited memory alice alice_index memory-Documented Fixtures.sends bob hello 2 6
        (some 6)
        evicted
evicted_key_misdelivers_example =
    evicted_key_misdelivers memory alice alice_index memory-Documented Fixtures.sends Endian.little
      [] bob hello true 2 6 (some 6) none none one_online one_online-IsServing alice_entry refl refl
      (omega arith) (omega arith) nobody_key bob_offline refl

-- Bob's message is stored, the one that waits for Alice is deleted, and Bob's messages are read.
abbrev requests : List (Event memory)
requests =
    adds (insert_message 2 hello)
    ∷ adds (delete_messages (2 ∷ []))
    ∷ turns
    ∷ turns
    ∷ adds (select_messages 2)
    ∷ turns
    ∷ turns
    ∷ turns
    ∷ turns
    ∷ []

abbrev hellos : Results
hellos = record no_result { messages = record { content = hello; db_index = 3 } ∷ [] }

abbrev history : List (Request × Results)
history =
    (insert_message 2 hello, record no_result { affected_rows = 1; last_insert_id = 3 })
    ∷ (delete_messages (2 ∷ []), no_result)
    ∷ (select_messages 2, hellos)
    ∷ []

stored_run : (run memory (start_queue memory alice_rows) requests).answered ≡ history
unfolding run step turn turn_in execute_back signal_back wait_until_non_empty add_request try_send
    back start_queue run_sql has_id messages_of drop_rows find bytes_eq
stored_run = refl

stored_added :
    get_elem? (run memory (start_queue memory alice_rows) requests).added 0
    ≡ some (insert_message 2 hello)
unfolding run step turn turn_in execute_back signal_back wait_until_non_empty add_request try_send
    back start_queue run_sql has_id messages_of drop_rows find bytes_eq
stored_added = refl

stored_message_is_read_example :
    (inserted : Results) × (get_elem?
        (run memory (start_queue memory alice_rows) requests).answered
        0
      ≡ some (insert_message 2 hello, inserted))
    × (has_row hello inserted.last_insert_id hellos.messages ≡ true)
stored_message_is_read_example =
    stored_message_is_read memory memory-Documented alice_rows requests 0 2 2 hello hellos
      stored_added (omega arith) (ap (λ rs. get_elem? rs 2) stored_run) between
  where
    between :
        (i : ℕ) (r : Request) (s inserted : Results)
        → get_elem? (run memory (start_queue memory alice_rows) requests).answered 0
          ≡ some (insert_message 2 hello, inserted)
        → 0 < i
        → i < 2
        → get_elem? (run memory (start_queue memory alice_rows) requests).answered i ≡ some (r, s)
        → Spares memory memory-Documented inserted.last_insert_id r
    between zero r s inserted e after below at = absurd (omega arith)
    between (suc zero) r s inserted e after below at =
        let this : delete_messages (2 ∷ []) ≡ r =
          ground (arith, sym (ap (λ rs. get_elem? rs 1) stored_run) ∙ at) in
        let three : inserted.last_insert_id ≡ 3 =
          ground (arith, sym (ap (λ rs. get_elem? rs 0) stored_run) ∙ e) in
        subst (Spares memory memory-Documented inserted.last_insert_id) this (ground (arith, three))
    between (suc (suc i)) r s inserted e after below at = absurd (omega arith)
