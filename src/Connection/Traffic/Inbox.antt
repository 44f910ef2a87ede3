-- ===== src/Connection/Traffic/Inbox.antt =====
-- The queue of one connection of core/main/server.cpp, as its peer sees it, while other connections
-- log in and exchange messages.
pub mod Entering
pub mod Arriving
pub mod Order
use mathlib.Core.Path.{subst}
use mydak_server.Base.{
  ℕ, ◌≡◌, ◌≢◌, true, List, [], ◌∷◌, ◌++◌, Option, some, arith, Bytes, bytes_eq, find, get_elem?,
  ◌==◌, if◌then◌else◌,
}
use mydak_server.ClientIndex.{ClientIndex, invalid_index}
use mydak_server.SlotVector.{slot_at}
use mydak_server.Client.{Client}
use mydak_server.Database.{Mariadb}
use mydak_server.Database.Operations.{Database}
use mydak_server.Server.Writer.{pop_front}
use mydak_server.Server.Logins.{asking, online, ends, Logins}
use mydak_server.Connection.Traffic.{TrafficEvent, registers, sends, delivers, writes}

-- No connection ends.
abbrev pub Stays : TrafficEvent → Type 0
Stays (registers (ends c')) = ⊥
Stays _ = Unit

-- The condition that all messages meet.
abbrev pub Anything : Bytes → Bytes → Type 0
Anything k' x = Unit

module _ (c : ℕ) (k : Bytes) (q : ℕ) where
  -- What an event does to the messages of the queue.
  abbrev pub received : TrafficEvent → List Bytes → List Bytes
  received (registers e) messages = messages
  received (sends end k' x) messages = if bytes_eq k' k then messages ++ x ∷ [] else messages
  received (delivers end c' x) messages = if c' == c then messages ++ x ∷ [] else messages
  received (writes q') messages = if q' == q then pop_front messages else messages

  abbrev pub received_all : List TrafficEvent → List Bytes → List Bytes
  received_all [] messages = messages
  received_all (e ∷ es) messages = received_all es (received e messages)

module _ (m : Mariadb) (c : ℕ) (k : Bytes) (i : ClientIndex) (q : ℕ) where
  -- The connection has logged in under the key, the map has its handle, no other connection waits to
  -- log in under the key, and its queue holds these messages.
  pub record Inbox (messages : List Bytes) (l : Logins m) : Type 0 where
    pub on : get_elem? l.connections c ≡ some (online k i)
    pub inside : i.index ≢ invalid_index
    pub entry : find k l.server.client_indices ≡ some i
    pub client : Client
    pub here :
        slot_at l.server.clients i.index
        ≡ some (record { object = some client; generation = i.generation })
    pub active : client.active ≡ true
    pub mine : client.client_data.messages ≡ some q
    pub held : get_elem? l.server.queues q ≡ some messages
    pub quiet :
        (c' : ℕ) (socket channel : Option ℕ)
        → get_elem? l.connections c' ≢ some (asking k socket channel)

  -- The machine can only come to an inbox with these messages.
  abbrev pub Then : List Bytes → Option (Logins m) → Type 0
  Then messages r = (l : Logins m) → r ≡ some l → Inbox messages l

  pub just : (messages : List Bytes) (l : Logins m) → Inbox messages l → Then messages (some l)
  just messages l h l' e = let same : l ≡ l' = ground arith in subst (Inbox messages) same h

  -- Other queues.
  pub requeued :
      (queues : List (List Bytes)) (messages messages' : List Bytes) (l : Logins m)
      → Inbox messages l
      → get_elem? queues q ≡ some messages'
      → Inbox messages' (record l { server = record l.server { queues = queues } })
  requeued queues messages messages' l h now = record {
    on = h.on;
    inside = h.inside;
    entry = h.entry;
    client = h.client;
    here = h.here;
    active = h.active;
    mine = h.mine;
    held = now;
    quiet = h.quiet;
  }

  -- Another database.
  pub stored :
      (d : Database m) (messages : List Bytes) (l : Logins m)
      → Inbox messages l
      → Inbox messages (record l { server = record l.server { db = d } })
  stored d messages l h = record {
    on = h.on;
    inside = h.inside;
    entry = h.entry;
    client = h.client;
    here = h.here;
    active = h.active;
    mine = h.mine;
    held = h.held;
    quiet = h.quiet;
  }
