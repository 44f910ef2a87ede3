-- ===== src/Tests/Sessions.antt =====
-- Logins, messages and departures on a server with one client, at concrete inputs.
use mydak_server.Base.{
  ℕ, ◌≡◌, refl, true, false, [], ◌∷◌, ◌++◌, some, none, arith, Bytes, All, find, bytes_eq,
  if◌then◌else◌, ◌==◌,
}
use mydak_server.Task.{Outcome, done}
use mydak_server.ClientIndex.{ClientIndex, empty_index}
use mydak_server.Wire.{Endian}
use mydak_server.Wire.Frame.{IsFrame, frame_bytes}
use mydak_server.Database.Operations.{Database}
use mydak_server.Database.Operations.Messages.{contents}
use mydak_server.Server.{Server, add_client, remove_client, send_delayed_messages}
use mydak_server.Server.Registry.{IsLive, LoggedIn, Seated, add_client-LoggedIn}
use mydak_server.Server.Departure.{Left, remove_client-Left}
use mydak_server.Server.Delayed.{queued, delayed_messages_are_delivered}
use mydak_server.Connection.{end_connection, forward, receive_loop, start}
use mydak_server.Connection.Session.{start-total, forward_all, stream_of, receive_loop-forward_all}
use mydak_server.Connection.Forward.{offline_message_is_stored, unknown_recipient_stops_database}
use mydak_server.Connection.Return.{CameBack, message_awaits_login}
use mydak_server.Connection.Endings.{second_connection_unregisters}
use mydak_server.Tests.Memory.{memory, memory-Documented}
use mydak_server.Tests.Fixtures.{
  bytes_of, alice, bob, hello, alice_index, alice_client, alice_slot, one_online,
  one_online-IsServing, sends, alice_entry, bob_offline, alice-IsReady,
}

add_client-LoggedIn_example :
    (i : ClientIndex) × (s' : Server memory) × (add_client memory bob (some 6) (some 6) one_online
      ≡ (done i, s'))
    × LoggedIn memory memory-Documented bob i one_online s'
    × Seated memory memory-Documented (some 6) (some 6) i one_online s'
add_client-LoggedIn_example =
    add_client-LoggedIn memory memory-Documented bob (some 6) (some 6) one_online
      one_online-IsServing bob_offline (omega arith)

remove_client-Left_example :
    Left memory alice alice_index one_online (remove_client memory 0 alice one_online)
remove_client-Left_example =
    remove_client-Left memory alice alice_index one_online one_online-IsServing alice_entry

bob_known : memory-Documented.user one_online.db.tables bob ≡ some 2
unfolding memory-Documented find bytes_eq
bob_known = refl

offline_message_is_stored_example :
    (id : ℕ) × (d : Database memory) × (forward memory sends 2 bob hello one_online
      ≡ (done tt, record one_online { db = d }))
    × (d.running ≡ true)
    × ((w : ℕ)
        → memory-Documented.stored d.tables w ≡ (
            if 2 == w
            then memory-Documented.stored one_online.db.tables w
              ++ (record { content = hello; db_index = id }) ∷ []
            else memory-Documented.stored one_online.db.tables w))
    × ((j : Bytes)
        → memory-Documented.user d.tables j ≡ memory-Documented.user one_online.db.tables j)
offline_message_is_stored_example =
    offline_message_is_stored memory sends 2 bob hello 2 one_online memory-Documented refl
      bob_offline bob_known

delayed_messages_are_delivered_example :
    (d : Database memory) × (send_delayed_messages memory sends 0 1 1 one_online ≡ (
      done tt,
      record (queued memory sends one_online 0
          (contents (memory-Documented.stored one_online.db.tables 1))) { db = d },
    ))
    × (memory-Documented.stored d.tables 1 ≡ [])
    × (d.running ≡ true)
delayed_messages_are_delivered_example =
    delayed_messages_are_delivered memory sends alice_index alice_slot alice_client 0 5 refl refl
      alice-IsReady refl memory-Documented one_online refl refl

hello_to_bob : All (λ (f : Bytes × Bytes). IsFrame f.0 f.1) ((bob, hello) ∷ [])
hello_to_bob = (record { key_size = refl; not_short = omega arith; not_long = omega arith }, tt)

receive_loop-forward_all_example :
    receive_loop memory sends 2 Endian.little alice
      (stream_of memory sends ((bob, hello) ∷ []) (9 ∷ []))
      one_online
    ≡ forward_all memory sends Endian.little alice
        ((bob, hello) ∷ [])
        (receive_loop memory sends 1 Endian.little alice (9 ∷ []))
        one_online
receive_loop-forward_all_example =
    receive_loop-forward_all memory sends 1 Endian.little alice ((bob, hello) ∷ []) (9 ∷ [])
      one_online hello_to_bob

start-total_example :
    (t : Outcome (Unit {0}) × Server memory) × (start memory sends Endian.little
        (bob ++ frame_bytes alice hello)
        true
        (some 6)
        (some 6)
        one_online
      ≡ some t)
start-total_example =
    start-total memory sends Endian.little (bob ++ frame_bytes alice hello) true (some 6) (some 6)
      one_online

-- A key that nobody has logged in with.
abbrev carol : Bytes
carol = bytes_of 32 3

carol_offline : find carol one_online.client_indices ≡ none
unfolding find bytes_eq
carol_offline = refl

carol_unknown : memory-Documented.user one_online.db.tables carol ≡ none
unfolding memory-Documented find bytes_eq
carol_unknown = refl

unknown_recipient_stops_database_example :
    forward memory sends 2 carol hello one_online
    ≡ (done tt, record one_online { db = record one_online.db { running = false } })
unknown_recipient_stops_database_example =
    unknown_recipient_stops_database memory sends 2 carol hello one_online memory-Documented refl
      carol_offline carol_unknown

message_awaits_login_example :
    (i : ClientIndex) × (stored entered served : Server memory) × (forward memory sends 2 bob hello
        one_online
      ≡ (done tt, stored))
    × (add_client memory bob (some 6) (some 6) stored ≡ (done i, entered))
    × (send_delayed_messages memory sends i.index i.generation i.db_index entered
        ≡ (done tt, served))
    × CameBack memory memory-Documented sends
        (contents (memory-Documented.stored one_online.db.tables 2) ++ hello ∷ [])
        i
        1
        6
        served
message_awaits_login_example =
    message_awaits_login memory memory-Documented sends 2 bob hello 2 (some 6) 6 one_online
      one_online-IsServing bob_offline bob_known (omega arith) refl

second_connection_unregisters_example :
    (add_client memory alice (some 6) (some 6) one_online ≡ (done empty_index, one_online))
    × (find alice (end_connection memory sends empty_index alice one_online).client_indices ≡ none)
    × IsLive (end_connection memory sends empty_index alice one_online).clients alice_index
second_connection_unregisters_example =
    second_connection_unregisters memory sends alice (some 6) (some 6) alice_index one_online
      one_online-IsServing alice_entry (omega arith)
