-- ===== src/Connection/Return.antt =====
-- A message for a client that is offline, and the client's next login, in core/main/connection.cpp.
use mathlib.Core.List.{map-append}
use mathlib.Core.Path.{subst}
use mydak_server.Base.{
  ℕ, ◌+◌, ◌<◌, ◌≡◌, refl, ap, ◌∙◌, List, [], ◌∷◌, ◌++◌, Option, none, some, arith, Bytes, length,
  find, modify, get_elem?, get_elem?-modify_at, get_elem?-append_one, word,
}
use mydak_server.Task.{Outcome, done}
use mydak_server.ClientIndex.{ClientIndex}
use mydak_server.SlotVector.{slot_at}
use mydak_server.Client.{Client, Heap, make_queue, make_client}
use mydak_server.Database.{Mariadb, DbMessage}
use mydak_server.Database.Operations.Tables.{Documented}
use mydak_server.Database.Operations.Messages.{contents}
use mydak_server.Server.{Server, add_client, send_delayed_messages}
use mydak_server.Server.Registry.{IsServing, LoggedIn, Seated, add_client-LoggedIn}
use mydak_server.Server.Delivery.{IsReady}
use mydak_server.Server.Delayed.{queued, delayed_messages_are_delivered}
use mydak_server.Connection.{forward}
use mydak_server.Connection.Forward.{offline_message_is_stored}

pub make_client-IsReady :
    (socket : Option ℕ) (channel : ℕ) (queues : Heap)
    → IsReady (make_client socket (some channel) queues).0 (length queues) channel
unfolding make_client make_queue
make_client-IsReady socket channel queues = record {
  active = refl;
  messages = refl;
  signal_channel = refl;
}

-- A new queue is empty.
pub new_queue :
    (socket channel : Option ℕ) (queues : Heap)
    → get_elem? (make_client socket channel queues).1 (length queues) ≡ some []
unfolding make_client make_queue
new_queue socket channel queues = ground (arith, get_elem?-append_one queues [] (length queues))

filled :
    (queues : Heap) (q : ℕ) (messages : List Bytes)
    → get_elem? queues q ≡ some []
    → get_elem? (modify (λ l. l ++ messages) queues q) q ≡ some messages
filled queues q messages h =
    ground (arith, get_elem?-modify_at (λ l. l ++ messages) queues q q [] h)

module _ (m : Mariadb) (doc : Documented m) (async_send : ℕ → Outcome (Unit {0})) where
  -- What a login leads to when `k` has come back with its messages.
  pub record CameBack (messages : List Bytes) (i : ClientIndex) (queue channel : ℕ) (s : Server m)
      : Type 0 where
    pub client : Client
    pub here :
        slot_at s.clients i.index
        ≡ some (record { object = some client; generation = i.generation })
    pub ready : IsReady client queue channel
    pub waiting : get_elem? s.queues queue ≡ some messages
    pub stored : doc.stored s.db.tables i.db_index ≡ []

  deliver :
      (k : Bytes) (socket : Option ℕ) (channel : ℕ) (i : ClientIndex) (s s' : Server m)
      → LoggedIn m doc k i s s'
      → Seated m doc socket (some channel) i s s'
      → async_send channel ≡ done tt
      → (s'' : Server m) × (send_delayed_messages m async_send i.index i.generation i.db_index s'
          ≡ (done tt, s''))
        × CameBack (contents (doc.stored s'.db.tables i.db_index)) i (length s.queues) channel s''
  deliver k socket channel i s s' l seated sent =
      let c = (make_client socket (some channel) s.queues).0 in
      let (d, delivered, none_left, runs) =
        delayed_messages_are_delivered m async_send i
          (record { object = some c; generation = i.generation }) c (length s.queues) channel refl
          refl (make_client-IsReady socket channel s.queues) sent doc s' l.serving.served
          seated.here in
      let messages = contents (doc.stored s'.db.tables i.db_index) in
      (
        record (queued m async_send s' (length s.queues) messages) { db = d },
        delivered,
        record {
          client = c;
          here = seated.here;
          ready = make_client-IsReady socket channel s.queues;
          waiting = filled s'.queues (length s.queues) messages (
              ap (λ (h : Heap). get_elem? h (length s.queues)) seated.heap
              ∙ new_queue socket (some channel) s.queues);
          stored = none_left;
        },
      )

  -- On a server whose map and slots agree and whose database is served, with fewer than 2^64 - 1
  -- slots, take a key that is offline and has a row, and a channel that takes each signal. A
  -- message is sent to the key; then the key logs in with that channel and its stored messages are
  -- sent. Each step completes; at the end the new client stands in its slot, active, with its own
  -- queue and channel, the queue holds the messages that were stored before and then this one, and
  -- none is stored for it any more.
  pub message_awaits_login :
      (tries : ℕ) (k message : Bytes) (u : ℕ) (socket : Option ℕ) (channel : ℕ) (s : Server m)
      → IsServing m s
      → find k s.client_indices ≡ none
      → doc.user s.db.tables k ≡ some u
      → length s.clients.clients + 1 < word
      → async_send channel ≡ done tt
      → (i : ClientIndex) × (stored entered served : Server m) × (forward m async_send tries k
            message s
          ≡ (done tt, stored))
        × (add_client m k socket (some channel) stored ≡ (done i, entered))
        × (send_delayed_messages m async_send i.index i.generation i.db_index entered
            ≡ (done tt, served))
        × CameBack
            (contents (doc.stored s.db.tables u) ++ message ∷ [])
            i
            (length s.queues)
            channel
            served
  message_awaits_login tries k message u socket channel s h offline known room sent =
      let (id, d, forwarded, runs, kept, users) =
        offline_message_is_stored m async_send tries k message u s doc h.served offline known in
      let s1 : Server m = record s { db = d } in
      let (i, s2, added, l, seated) =
        add_client-LoggedIn m doc k socket (some channel) s1
          (record { registry = h.registry; served = runs }) offline room in
      let (s3, delivered, back) = deliver k socket channel i s1 s2 l seated sent in
      let same : i.db_index ≡ u = l.same_row u (users k ∙ known) in
      let x : DbMessage = record { content = message; db_index = id } in
      let rows : doc.stored s2.db.tables i.db_index ≡ doc.stored s.db.tables u ++ x ∷ [] =
        l.messages i.db_index ∙ ap (doc.stored d.tables) same ∙ kept u ∙ ground arith in
      let messages : contents (doc.stored s2.db.tables i.db_index)
          ≡ contents (doc.stored s.db.tables u) ++ message ∷ [] =
        ap contents rows
        ∙ map-append (λ (y : DbMessage). y.content) (doc.stored s.db.tables u) (x ∷ []) in
      (
        i,
        s1,
        s2,
        s3,
        forwarded,
        added,
        delivered,
        subst (λ t. CameBack t i (length s.queues) channel s3) messages back,
      )
