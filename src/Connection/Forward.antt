-- ===== src/Connection/Forward.antt =====
-- What becomes of a message in core/main/connection.cpp: queued for a recipient that is online,
-- stored for one that is known and offline, and the end of the database service otherwise.
use mydak_server.Base.{
  ℕ, zero, suc, ◌≡◌, ◌≢◌, refl, ◌∙◌, true, false, [], ◌∷◌, ◌++◌, none, some, arith, Bytes, modify,
  find, ◌==◌, if◌then◌else◌,
}
use mydak_server.Task.{Outcome, done, threw, hung, undefined}
use mydak_server.ClientIndex.{ClientIndex, invalid_index, with_db_index}
use mydak_server.Slot.{Slot}
use mydak_server.SlotVector.{slot_at}
use mydak_server.Client.{Client}
use mydak_server.Database.{Mariadb}
use mydak_server.Database.Operations.{Database}
use mydak_server.Database.Operations.Tables.{Documented}
use mydak_server.Database.Operations.Users.{row_id, get_db_index-user, add_message_unknown}
use mydak_server.Database.Operations.Messages.{add_message_known}
use mydak_server.Server.{Server, get_client_index, add_message_to_db}
use mydak_server.Server.Registry.{IsServing}
use mydak_server.Server.Delivery.{IsReady, get_client_index_present, queue_online}
use mydak_server.Connection.{attempt, forward}

-- What the coroutine that forwards a message goes on with: the code of the send changes nothing.
abbrev pub after_send : Outcome (Unit {0}) → Outcome (Unit {0})
after_send (done _) = done tt
after_send threw = done tt
after_send hung = hung
after_send undefined = undefined

module _ (m : Mariadb) (async_send : ℕ → Outcome (Unit {0})) where
  attempt_offline :
      (again : Server m → Outcome (Unit {0}) × Server m) (k message : Bytes) (s : Server m)
      (doc : Documented m)
      → find k s.client_indices ≡ none
      → attempt m async_send again k message s ≡ add_message_to_db m (row_id m doc k s.db) message s
  unfolding attempt get_client_index with_db_index
  attempt_offline again k message s doc e = ground (arith, get_db_index-user m doc k s.db)

  pub forward_offline :
      (tries : ℕ) (k message : Bytes) (s : Server m) (doc : Documented m)
      → find k s.client_indices ≡ none
      → forward m async_send tries k message s ≡ add_message_to_db m (row_id m doc k s.db) message s
  unfolding forward
  forward_offline zero k message s doc e = attempt_offline _ k message s doc e
  forward_offline (suc tries) k message s doc e = attempt_offline _ k message s doc e

  -- While the database is served, a message for a key that is not in the map and has a row is
  -- stored at the end of that row's messages and of no other's; every key keeps its row or lack of
  -- one, nothing but the database changes, and it is served still.
  pub offline_message_is_stored :
      (tries : ℕ) (k message : Bytes) (u : ℕ) (s : Server m) (doc : Documented m)
      → s.db.running ≡ true
      → find k s.client_indices ≡ none
      → doc.user s.db.tables k ≡ some u
      → (id : ℕ) × (d : Database m) × (forward m async_send tries k message s
          ≡ (done tt, record s { db = d }))
        × (d.running ≡ true)
        × ((w : ℕ)
            → doc.stored d.tables w ≡ (
                if u == w
                then doc.stored s.db.tables w ++ (record { content = message; db_index = id }) ∷ []
                else doc.stored s.db.tables w))
        × ((j : Bytes) → doc.user d.tables j ≡ doc.user s.db.tables j)
  unfolding add_message_to_db
  offline_message_is_stored tries k message u s doc up e known =
      let (id, d, ran, runs, users, kept) = add_message_known m doc k u message s.db up known in
      (id, d, forward_offline tries k message s doc e ∙ ground (arith, ran), runs, kept, users)

  -- While the database is served, a message for a key that is not in the map and has no row is
  -- lost: the sender's coroutine goes on, the tables are as before, and the loop that runs the
  -- statements has ended.
  pub unknown_recipient_stops_database :
      (tries : ℕ) (k message : Bytes) (s : Server m) (doc : Documented m)
      → s.db.running ≡ true
      → find k s.client_indices ≡ none
      → doc.user s.db.tables k ≡ none
      → forward m async_send tries k message s
        ≡ (done tt, record s { db = record s.db { running = false } })
  unfolding add_message_to_db
  unknown_recipient_stops_database tries k message s doc up e unknown =
      forward_offline tries k message s doc e
      ∙ ground (arith, add_message_unknown m doc message s.db up)

  attempt_present :
      (again : Server m → Outcome (Unit {0}) × Server m) (k message : Bytes) (i : ClientIndex)
      (s : Server m) (slot : Slot Client) (c : Client) (queue channel : ℕ)
      → find k s.client_indices ≡ some i
      → i.index ≢ invalid_index
      → slot_at s.clients i.index ≡ some slot
      → slot.object ≡ some c
      → IsReady c queue channel
      → attempt m async_send again k message s ≡ (
        after_send (async_send channel),
        record s { queues = modify (λ q. q ++ message ∷ []) s.queues queue },
      )
  unfolding attempt with_db_index
  attempt_present again k message i s slot c queue channel e inside at full ready = ground (
    arith,
    get_client_index_present m k i s slot c e at full,
    queue_online m async_send message (with_db_index i.index slot.generation i.db_index) s slot c
        queue channel at full refl ready,
  )

  -- A message goes to the queue of the client that stands in the slot of the map's entry.
  pub forward_present :
      (tries : ℕ) (k message : Bytes) (i : ClientIndex) (s : Server m) (slot : Slot Client)
      (c : Client) (queue channel : ℕ)
      → find k s.client_indices ≡ some i
      → i.index ≢ invalid_index
      → slot_at s.clients i.index ≡ some slot
      → slot.object ≡ some c
      → IsReady c queue channel
      → forward m async_send tries k message s ≡ (
        after_send (async_send channel),
        record s { queues = modify (λ q. q ++ message ∷ []) s.queues queue },
      )
  unfolding forward
  forward_present zero k message i s slot c queue channel e inside at full ready =
      attempt_present _ k message i s slot c queue channel e inside at full ready
  forward_present (suc n) k message i s slot c queue channel e inside at full ready =
      attempt_present _ k message i s slot c queue channel e inside at full ready

  -- On a server whose map and slots agree, a message for a key in the map whose entry is not the
  -- invalid index and whose client has a queue and a channel goes to the end of that queue in the
  -- first attempt; nothing else of the server changes, and the coroutine goes on unless the signal
  -- hangs or is undefined.
  pub online_message_is_queued :
      (tries : ℕ) (k message : Bytes) (i : ClientIndex) (s : Server m) (slot : Slot Client)
      (c : Client) (queue channel : ℕ)
      → IsServing m s
      → find k s.client_indices ≡ some i
      → i.index ≢ invalid_index
      → slot_at s.clients i.index ≡ some slot
      → slot.object ≡ some c
      → IsReady c queue channel
      → forward m async_send tries k message s ≡ (
        after_send (async_send channel),
        record s { queues = modify (λ q. q ++ message ∷ []) s.queues queue },
      )
  online_message_is_queued tries k message i s slot c queue channel h =
      forward_present tries k message i s slot c queue channel
