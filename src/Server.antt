-- ===== src/Server.antt =====
-- core/main/server.hpp and server.cpp. A function that suspends is modelled as it runs when no
-- other coroutine changes the server meanwhile; where the source's own steps interleave, the parts
-- before and after the suspension are functions of their own.
pub mod Registry
pub mod Departure
pub mod Delivery
pub mod Delayed
pub mod Writer
pub mod Logins
pub mod Accept
pub mod Bystanders
pub mod Construction
use mydak_server.Base.{
  ℕ, ◌==◌, Bool, true, false, not, List, [], ◌∷◌, ◌++◌, Option, none, some, ltb, if◌then◌else◌,
  Bytes, length, find, assign, erase,
}
use mydak_server.OptionalRef.{OptionalRef}
use mydak_server.Task.{
  Outcome, done, threw, hung, undefined, and_then, ◌>>=◌, ◌>>◌, pure, on_throw, catch,
}
use mydak_server.ClientIndex.{
  ClientIndex, invalid_index, with_generation, with_db_index, empty_index,
}
use mydak_server.Slot.{Slot, is_empty, get_slot_value, get_slot_generation}
use mydak_server.SlotVector.{SlotVector, slot_at, emplace_back, pop}
use mydak_server.Client.{Client, Heap, make_client, add_message, get_client_data}
use mydak_server.Database.{Mariadb, DbMessage}
use mydak_server.Database.Operations as Db
use mydak_server.Database.Operations.{Database}

-- core/util/codes.hpp
pub data SendCode : Type 0 where
  no_client expired_client bad_signal success exception : SendCode

module _ (m : Mariadb) where
  -- `writers` are the socket coroutines that were spawned, by channel and index.
  pub record Server : Type 0 where
    pub clients : SlotVector Client
    pub client_indices : List (Bytes × ClientIndex)
    pub queues : Heap
    pub writers : List (Option ℕ × ℕ)
    pub db : Database m

  -- A coroutine of the database, awaited by the server.
  abbrev pub on_db :
      {A : Type 0} → (Database m → Outcome A × Database m) → Server → Outcome A × Server
  on_db t s = let (r, d) = t s.db in (r, record s { db = d })

  -- `coh::detached`: the coroutine runs until it ends or hangs; the caller goes on either way.
  abbrev pub detached :
      (Server → Outcome (Unit {0}) × Server) → Server → Outcome (Unit {0}) × Server
  detached t s = (done tt, (t s).1)

  -- `add_client_to_db` after its suspension. `known` is `it != client_indices.end()`, which was
  -- decided before; the entry found then is written through the iterator.
  enter_known : Bytes → ℕ → Option ClientIndex → Server → Outcome ℕ × Server
  enter_known public_key db_index none s = (undefined, s)
  enter_known public_key db_index (some entry) s = (
    done db_index,
    record s {
      client_indices = assign public_key (record entry { db_index = db_index }) s.client_indices;
    },
  )

  unfoldable pub enter_client : Bool → Bytes → ℕ → Server → Outcome ℕ × Server
  unfolding enter_known
  enter_client known public_key db_index s =
      if known then enter_known public_key db_index (find public_key s.client_indices) s else (
        done db_index,
        record s {
          client_indices =
              assign public_key (with_generation invalid_index db_index) s.client_indices;
        },
      )

  abbrev pub is_known : Bytes → Server → Bool
  is_known public_key s = elim (find public_key s.client_indices) [ none ↦ false | some _ ↦ true ]

  unfoldable pub add_client_to_db : Bytes → Server → Outcome ℕ × Server
  add_client_to_db public_key s =
      and_then (on_db (Db.add_user m public_key) s)
        (enter_client (is_known public_key s) public_key)

  -- `add_client` from the return of `add_client_to_db` on.
  unfoldable pub admit_client :
      Bytes → Option ℕ → Option ℕ → ℕ → Server → Outcome ClientIndex × Server
  admit_client public_key socket signal_channel db_index s =
      let (c, queues) = make_client socket signal_channel s.queues in
      elim (emplace_back c s.clients) [
        | none ↦ (undefined, s)
        | some (clients, slot_index) ↦
            let indices = record slot_index { db_index = db_index } in
            (
              done indices,
              record s {
                clients = clients;
                client_indices = assign public_key indices s.client_indices;
                queues = queues;
                writers = (signal_channel, indices.index) ∷ s.writers;
              },
            )
      ]

  unfoldable pub add_client : Bytes → Option ℕ → Option ℕ → Server → Outcome ClientIndex × Server
  add_client public_key socket signal_channel s =
      if is_known public_key s
      then (done empty_index, s)
      else and_then (add_client_to_db public_key s) (admit_client public_key socket signal_channel)

  unfoldable pub get_client : ℕ → Server → OptionalRef (Slot Client)
  get_client index s =
      if ltb index (length s.clients.clients) then slot_at s.clients index else none

  unfoldable pub remove_client : ℕ → Bytes → Server → Server
  remove_client index public_key s = record s {
    clients = pop index s.clients;
    client_indices = erase public_key s.client_indices;
  }

  -- `get_client_index` for a key that is in the map.
  online_index : ClientIndex → Option (Slot Client) → Server → Outcome ClientIndex × Server
  online_index entry none s = (undefined, s)
  online_index entry (some slot) s =
      if is_empty slot
      then (done empty_index, s)
      else (done (with_db_index entry.index (get_slot_generation slot) entry.db_index), s)

  unfoldable pub get_client_index : Bytes → Server → Outcome ClientIndex × Server
  unfolding online_index
  get_client_index public_key s = elim (find public_key s.client_indices) [
    | none ↦
        and_then (on_db (Db.get_db_index m public_key) s)
          (λ db_index. pure (with_db_index invalid_index invalid_index db_index))
    | some entry ↦ online_index entry (slot_at s.clients entry.index) s
  ]

  unfoldable pub add_message_to_db : ℕ → Bytes → Server → Outcome (Unit {0}) × Server
  add_message_to_db index message = detached (on_db (Db.add_message m index message))

  -- The rest takes the channels: how `async_send` on one of them ends. It may complete, throw, or
  -- stay suspended because the coroutine that receives has ended.
  module _ (async_send : ℕ → Outcome (Unit {0})) where
    -- What a send on each channel comes to in the run that is considered: the channels have no
    -- buffer, so that a send completes when the coroutine of the client receives.
    -- Nothing assigns `error_code` in the source: `async_send` takes it by value. So a failure is
    -- an exception, which the handler at the end turns into a code.
    signal : Option ℕ → Outcome SendCode
    signal none = undefined
    signal (some channel) = elim (async_send channel) [
      | done _ ↦ done SendCode.success
      | threw ↦ done SendCode.exception
      | hung ↦ hung
      | undefined ↦ undefined
    ]

    -- The slot is occupied, or `get_slot_value` throws.
    queue_for : Option Client → Bytes → Server → Outcome SendCode × Server
    unfolding signal
    queue_for none message s = (done SendCode.exception, s)
    queue_for (some c) message s = (
      signal (get_client_data c).signal_channel,
      record s { queues = add_message message c s.queues },
    )

    unfoldable pub add_message_to_queue : ℕ → ℕ → Bytes → Server → Outcome SendCode × Server
    unfolding queue_for
    add_message_to_queue recipient_index generation message s =
        elim (slot_at s.clients recipient_index) [
          | none ↦ (undefined, s)
          | some slot ↦
              if is_empty slot
              then (done SendCode.no_client, s)
              else if not (get_slot_generation slot == generation)
              then (done SendCode.expired_client, s)
              else queue_for (get_slot_value slot) message s
        ]

    -- The loop over the delayed messages: the rows whose messages were sent on.
    unfoldable pub send_each : ℕ → ℕ → List DbMessage → Server → Outcome (List ℕ) × Server
    send_each recipient_index generation [] s = (done [], s)
    send_each recipient_index generation (message ∷ messages) s =
        let rest = send_each recipient_index generation messages in
        and_then (add_message_to_queue recipient_index generation message.content s) λ code.
          elim code [
            | SendCode.success ↦ (do db_indices ← rest; pure (message.db_index ∷ db_indices))
            | _ ↦ pure []
          ]

    unfoldable pub send_delayed_messages : ℕ → ℕ → ℕ → Server → Outcome (Unit {0}) × Server
    send_delayed_messages recipient_index generation db_index = do
      messages ← on_db (Db.get_delayed_messages m db_index)
      db_indices ← send_each recipient_index generation messages
      on_db (Db.delete_delayed_messages m db_indices)
