-- ===== src/Server/Delivery.antt =====
-- Messages for clients that are online, in core/main/server.cpp.
use mydak_server.Base.{
  ℕ, ◌≡◌, true, [], ◌∷◌, ◌++◌, none, some, arith, if◌then◌else◌, modify, Bytes, find,
}
use mydak_server.Task.{Outcome, done, threw, hung, undefined}
use mydak_server.ClientIndex.{ClientIndex, with_db_index}
use mydak_server.Slot.{Slot, is_empty, get_slot_value, get_slot_generation}
use mydak_server.SlotVector.{slot_at}
use mydak_server.SlotVector.Stale.{resolve}
use mydak_server.Client.{Client, add_message, get_client_data}
use mydak_server.Database.{Mariadb}
use mydak_server.Server.{
  Server, SendCode, success, exception, no_client, expired_client, get_client_index,
  add_message_to_queue,
}

-- A client as its constructor leaves it: active, with a queue and a channel.
pub record IsReady (c : Client) (queue channel : ℕ) : Type 0 where
  pub active : c.active ≡ true
  pub messages : c.client_data.messages ≡ some queue
  pub signal_channel : c.client_data.signal_channel ≡ some channel

-- The code for the way in which the signal to the recipient's coroutine ended.
abbrev pub sent_code : Outcome (Unit {0}) → Outcome SendCode
sent_code (done _) = done success
sent_code threw = done exception
sent_code hung = hung
sent_code undefined = undefined

module _ (m : Mariadb) where
  -- A sender is given the index of the map's entry with the generation of the slot's present life,
  -- whether or not that is the life for which the entry was made.
  pub get_client_index_present :
      (k : Bytes) (i : ClientIndex) (s : Server m) (slot : Slot Client) (c : Client)
      → find k s.client_indices ≡ some i
      → slot_at s.clients i.index ≡ some slot
      → slot.object ≡ some c
      → get_client_index m k s ≡ (done (with_db_index i.index slot.generation i.db_index), s)
  unfolding get_client_index is_empty get_slot_generation with_db_index
  get_client_index_present k i s slot c e at full = ground arith

  module _ (async_send : ℕ → Outcome (Unit {0})) where
    pub queue_online :
        (message : Bytes) (i : ClientIndex) (s : Server m) (slot : Slot Client) (c : Client)
        (queue channel : ℕ)
        → slot_at s.clients i.index ≡ some slot
        → slot.object ≡ some c
        → slot.generation ≡ i.generation
        → IsReady c queue channel
        → add_message_to_queue m async_send i.index i.generation message s ≡ (
          sent_code (async_send channel),
          record s { queues = modify (λ q. q ++ message ∷ []) s.queues queue },
        )
    unfolding add_message_to_queue is_empty get_slot_generation get_slot_value add_message
        get_client_data
    queue_online message i s slot c queue channel at full life ready = ground arith

    -- A message sent by an index with a slot and a generation that resolve to no client is refused,
    -- with the code for no client if the slot is empty and for an expired client otherwise, and the
    -- server does not change.
    pub stale_message_is_refused :
        (i g : ℕ) (message : Bytes) (s : Server m) (slot : Slot Client)
        → slot_at s.clients i ≡ some slot
        → resolve s.clients i g ≡ none
        → add_message_to_queue m async_send i g message s
          ≡ (done (if is_empty slot then no_client else expired_client), s)
    unfolding add_message_to_queue is_empty get_slot_generation resolve
    stale_message_is_refused i g message s slot at stale = ground arith
