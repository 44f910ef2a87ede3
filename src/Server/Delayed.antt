-- ===== src/Server/Delayed.antt =====
-- Messages that waited in the database, in core/main/server.cpp: they are queued for the client
-- that has come back and deleted.
use mathlib.Core.List.{append-nil, append_assoc}
use mathlib.Core.Path.{fun_ext}
use mydak_server.Base.{
  ℕ, ◌≡◌, refl, sym, ap, ◌∙◌, true, List, [], ◌∷◌, ◌++◌, some, Bytes, modify, modify-modify,
  modify_id,
}
use mydak_server.Task.{Outcome, done}
use mydak_server.ClientIndex.{ClientIndex}
use mydak_server.Slot.{Slot}
use mydak_server.SlotVector.{slot_at}
use mydak_server.Client.{Client}
use mydak_server.Database.{Mariadb, DbMessage}
use mydak_server.Database.Operations.{Database}
use mydak_server.Database.Operations.Tables.{Documented}
use mydak_server.Database.Operations.Messages.{
  contents, row_ids, get_delayed_messages-stored, delete_all,
}
use mydak_server.Server.{Server, send_each, send_delayed_messages}
use mydak_server.Server.Delivery.{IsReady, queue_online}

module _ (m : Mariadb) (async_send : ℕ → Outcome (Unit {0})) where
  -- The state after the messages have been put at the end of a queue.
  abbrev pub queued : Server m → ℕ → List Bytes → Server m
  queued s queue messages = record s { queues = modify (λ q. q ++ messages) s.queues queue }

  queued-queued :
      (s : Server m) (queue : ℕ) (x : Bytes) (xs : List Bytes)
      → queued (queued s queue (x ∷ [])) queue xs ≡ queued s queue (x ∷ xs)
  queued-queued s queue x xs =
      ap (λ (qs : List (List Bytes)). record s { queues = qs })
        (modify-modify (λ q. q ++ xs) (λ q. q ++ x ∷ []) s.queues queue
          ∙ ap (λ (f : List Bytes → List Bytes). modify f s.queues queue)
              (fun_ext (λ q. append_assoc q (x ∷ []) xs)))

  queued_nil : (s : Server m) (queue : ℕ) → queued s queue [] ≡ s
  queued_nil s queue =
      ap (λ (qs : List (List Bytes)). record s { queues = qs })
        (ap (λ (f : List Bytes → List Bytes). modify f s.queues queue) (fun_ext (λ q. append-nil q))
          ∙ modify_id s.queues queue)

  module _ (i : ClientIndex) (slot : Slot Client) (c : Client) (queue channel : ℕ)
      (full : slot.object ≡ some c) (life : slot.generation ≡ i.generation)
      (ready : IsReady c queue channel) (sent : async_send channel ≡ done tt) where
    -- All messages are queued in order, and the rows of all of them are returned.
    send_each_all :
        (messages : List DbMessage) (s : Server m)
        → slot_at s.clients i.index ≡ some slot
        → send_each m async_send i.index i.generation messages s
          ≡ (done (row_ids messages), queued s queue (contents messages))
    unfolding send_each
    send_each_all [] s at = ap (λ t. (done [], t)) (sym (queued_nil s queue))
    send_each_all (x ∷ xs) s at =
        rw
          (
            queue_online m async_send x.content i s slot c queue channel at full life ready,
            send_each,
            sent,
            send_each_all xs (queued s queue (x.content ∷ [])) at,
            queued-queued s queue x.content (contents xs),
          )
          refl

    -- While the database is served, for a handle whose slot holds a client with a queue and a
    -- channel, of the handle's generation, and a channel that takes each signal: all messages
    -- stored for the handle's row go to the end of that queue in their order, then none is stored
    -- for it, nothing but that queue and the database changes, and the database is served still.
    pub delayed_messages_are_delivered :
        (doc : Documented m) (s : Server m)
        → s.db.running ≡ true
        → slot_at s.clients i.index ≡ some slot
        → let waiting = doc.stored s.db.tables i.db_index in
          (d : Database m) × (send_delayed_messages m async_send i.index i.generation i.db_index s
            ≡ (done tt, record (queued s queue (contents waiting)) { db = d }))
          × (doc.stored d.tables i.db_index ≡ [])
          × (d.running ≡ true)
    unfolding send_delayed_messages
    delayed_messages_are_delivered doc s up at =
        let waiting = doc.stored s.db.tables i.db_index in
        let (d, deleted, none_left, runs, users) = delete_all m doc i.db_index s.db up in
        (
          d,
          rw
              (
                get_delayed_messages-stored m doc i.db_index s.db up,
                send_each_all waiting s at,
                deleted,
              )
              refl,
          none_left,
          runs,
        )
