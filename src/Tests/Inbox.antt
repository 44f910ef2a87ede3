-- ===== src/Tests/Inbox.antt =====
-- The queue of a client among other connections, at concrete inputs.
use mydak_server.Base.{List, [], ◌∷◌, some}
use mydak_server.ClientIndex.{ClientIndex}
use mydak_server.Slot.{Slot}
use mydak_server.Client.{Client}
use mydak_server.Server.Logins.{asking, online, answered, Logins}
use mydak_server.Connection.Traffic.{
  received, failed, suspended, TrafficEvent, registers, sends, delivers, writes,
}
use mydak_server.Connection.Traffic.Inbox.{Inbox}
use mydak_server.Tests.Memory.{memory}
use mydak_server.Tests.Fixtures.{alice, bob, hello, alice_index, one_online}

-- Alice has logged in, and Bob waits for his row.
abbrev alice_there : Logins memory
alice_there = record {
  server = one_online;
  connections = online alice alice_index ∷ asking bob (some 6) (some 6) ∷ [];
}

-- Alice adds a message from her row, she and Bob are sent others while he logs in, and one is written to her.
abbrev exchange : List TrafficEvent
exchange =
    delivers suspended 0 hello
    ∷ registers (answered 1 2)
    ∷ sends received bob hello
    ∷ sends failed alice (7 ∷ [])
    ∷ writes 0
    ∷ []
