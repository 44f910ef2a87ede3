-- ===== src/Server/Bystanders.antt =====
-- The operations of core/main/server.cpp that look clients up and send to them, and the registry.
use mydak_server.Base.{
  ℕ, ◌≡◌, refl, inl, inr, List, [], ◌∷◌, Option, none, some, Option-cases, Bool-cases, Bytes, find,
  ◌==◌,
}
use mydak_server.Task.{Outcome, done, threw, hung, undefined, and_then, ◌>>=◌, pure}
use mydak_server.Slot.{is_empty, get_slot_value, get_slot_generation}
use mydak_server.SlotVector.{slot_at}
use mydak_server.Client.{Client}
use mydak_server.Database.{Mariadb, DbMessage}
use mydak_server.Database.Operations as Db
use mydak_server.Server.{
  Server, SendCode, no_client, expired_client, bad_signal, success, exception, on_db, online_index,
  get_client_index, add_message_to_db, queue_for, add_message_to_queue, send_each,
  send_delayed_messages,
}

module _ (m : Mariadb) where
  -- The slots and the map are the same.
  pub record Keeps (s t : Server m) : Type 0 where
    pub slots : t.clients ≡ s.clients
    pub keys : t.client_indices ≡ s.client_indices

  pub Keeps-refl : (s : Server m) → Keeps s s
  Keeps-refl s = record { slots = refl; keys = refl }

  pub and_then-Keeps :
      {A B : Type 0} (s : Server m) (x : Outcome A × Server m)
      (f : A → Server m → Outcome B × Server m)
      → Keeps s x.1
      → ((a : A) (t : Server m) → Keeps s t → Keeps s (f a t).1)
      → Keeps s (and_then x f).1
  and_then-Keeps s (done a, t) f h k = k a t h
  and_then-Keeps s (threw, t) f h k = h
  and_then-Keeps s (hung, t) f h k = h
  and_then-Keeps s (undefined, t) f h k = h

  pub get_client_index-Keeps :
      (k : Bytes) (s t : Server m) → Keeps s t → Keeps s (get_client_index m k t).1
  unfolding get_client_index online_index
  get_client_index-Keeps k s t h = elim (Option-cases (find k t.client_indices)) [
    | inl offline ↦
        rw (offline, get_client_index)
          (and_then-Keeps s _ _ (record { slots = h.slots; keys = h.keys }) (λ a u g. g))
    | inr (i, online) ↦ elim (Option-cases (slot_at t.clients i.index)) [
      | inl missing ↦ rw (online, get_client_index, missing) h
      | inr (slot, here) ↦ elim (Bool-cases (is_empty slot)) [
        | inl empty ↦ rw (online, get_client_index, here, online_index, empty) h
        | inr full ↦ rw (online, get_client_index, here, online_index, full) h
      ]
    ]
  ]

  pub add_message_to_db-Keeps :
      (i : ℕ) (message : Bytes) (s t : Server m)
      → Keeps s t
      → Keeps s (add_message_to_db m i message t).1
  unfolding add_message_to_db
  add_message_to_db-Keeps i message s t h = record { slots = h.slots; keys = h.keys }

  module _ (async_send : ℕ → Outcome (Unit {0})) where
    queue_for-Keeps :
        (c : Option Client) (message : Bytes) (s t : Server m)
        → Keeps s t
        → Keeps s (queue_for m async_send c message t).1
    unfolding queue_for
    queue_for-Keeps none message s t h = h
    queue_for-Keeps (some c) message s t h = record { slots = h.slots; keys = h.keys }

    pub add_message_to_queue-Keeps :
        (i g : ℕ) (message : Bytes) (s t : Server m)
        → Keeps s t
        → Keeps s (add_message_to_queue m async_send i g message t).1
    unfolding add_message_to_queue
    add_message_to_queue-Keeps i g message s t h = elim (Option-cases (slot_at t.clients i)) [
      | inl missing ↦ rw (missing, add_message_to_queue) h
      | inr (slot, here) ↦ elim (Bool-cases (is_empty slot)) [
        | inl empty ↦ rw (here, add_message_to_queue, empty) h
        | inr full ↦ elim (Bool-cases (get_slot_generation slot == g)) [
          | inl same ↦
              rw (here, add_message_to_queue, full, same)
                (queue_for-Keeps (get_slot_value slot) message s t h)
          | inr other ↦ rw (here, add_message_to_queue, full, other) h
        ]
      ]
    ]

    send_each-Keeps :
        (i g : ℕ) (messages : List DbMessage) (s t : Server m)
        → Keeps s t
        → Keeps s (send_each m async_send i g messages t).1
    unfolding send_each
    send_each-Keeps i g [] s t h = h
    send_each-Keeps i g (x ∷ xs) s t h =
        and_then-Keeps {A = SendCode} s _ _ (add_message_to_queue-Keeps i g x.content s t h)
          λ code u k. elim code as (λ c. Keeps s (after c u).1) [
            | success ↦ and_then-Keeps s _ _ (send_each-Keeps i g xs s u k) (λ ids v l. l)
            | no_client ↦ k
            | expired_client ↦ k
            | bad_signal ↦ k
            | exception ↦ k
          ]
      where
        after : SendCode → Server m → Outcome (List ℕ) × Server m
        after code = elim code [
          | success ↦ (do ids ← send_each m async_send i g xs; pure (x.db_index ∷ ids))
          | _ ↦ pure []
        ]

    pub send_delayed_messages-Keeps :
        (i g d : ℕ) (s t : Server m)
        → Keeps s t
        → Keeps s (send_delayed_messages m async_send i g d t).1
    unfolding send_delayed_messages
    send_delayed_messages-Keeps i g d s t h =
        and_then-Keeps s (on_db m (Db.get_delayed_messages m d) t) _
          (record { slots = h.slots; keys = h.keys })
          λ messages u k.
            and_then-Keeps s (send_each m async_send i g messages u) _
              (send_each-Keeps i g messages s u k)
              λ ids v l. record { slots = l.slots; keys = l.keys }
