-- ===== src/Connection/Traffic/Messages.antt =====
-- Messages that are added to the queues of core/main/server.cpp and taken from them.
use mathlib.Core.Path.{subst}
use mydak_server.Base.{
  ℕ, zero, suc, ◌≡◌, ◌≢◌, refl, sym, ap, ◌∙◌, inl, inr, ◌⊎◌, Bool-cases, false, List, [], ◌∷◌, ◌++◌,
  none, some, Option-cases, arith, Bytes, All, find, length-modify, get_elem?, get_elem?-modify_at,
  modify, ◌==◌,
}
use mydak_server.Task.{Outcome, done, threw, hung, undefined, and_then, pure}
use mydak_server.ClientIndex.{ClientIndex, invalid_index, with_db_index}
use mydak_server.Slot.{Slot, is_empty, get_slot_value, get_slot_generation}
use mydak_server.SlotVector.{slot_at}
use mydak_server.Client.{Client, add_message, get_client_data}
use mydak_server.Database.{Mariadb}
use mydak_server.Server.{
  Server, SendCode, expired_client, no_client, bad_signal, success, exception, add_message_to_queue,
}
use mydak_server.Server.Delivery.{get_client_index_present}
use mydak_server.Server.Logins.{online, Logins}
use mydak_server.Connection.{attempt, forward}
use mydak_server.Connection.Traffic.{settled}
use mydak_server.Connection.Traffic.Addressed.{IsAddressed, requeued-IsAddressed}

Outcome-cases :
    (o : Outcome (Unit {0})) → ((o ≡ done tt) ⊎ (o ≡ threw)) ⊎ ((o ≡ hung) ⊎ (o ≡ undefined))
Outcome-cases (done tt) = inl (inl refl)
Outcome-cases threw = inl (inr refl)
Outcome-cases hung = inr (inl refl)
Outcome-cases undefined = inr (inr refl)

module _ (m : Mariadb) (async_send : ℕ → Outcome (Unit {0})) where
  -- A client that is found is given the message, however the signal ends.
  pub add_message_to_queue-found :
      (i g : ℕ) (x : Bytes) (s : Server m) (slot : Slot Client) (c : Client)
      → slot_at s.clients i ≡ some slot
      → slot.object ≡ some c
      → slot.generation ≡ g
      → (r : Outcome SendCode) × (add_message_to_queue m async_send i g x s
          ≡ (r, record s { queues = add_message x c s.queues }))
        × (r ≢ done expired_client)
        × (((n : ℕ) → async_send n ≢ undefined)
            → c.client_data.signal_channel ≢ none
            → r ≢ undefined)
  unfolding add_message_to_queue is_empty get_slot_generation get_slot_value get_client_data
  add_message_to_queue-found i g x s slot c at full life =
      elim (Option-cases c.client_data.signal_channel) [
        | inl null ↦ (undefined, ground arith, λ e. cc, λ _ some_channel _. some_channel null)
        | inr (channel, there) ↦ elim (Outcome-cases (async_send channel)) [
          | inl (inl sent) ↦ (done success, ground arith, λ e. cc, λ _ _ e. cc)
          | inl (inr failed) ↦ (done exception, ground arith, λ e. cc, λ _ _ e. cc)
          | inr (inl waits) ↦ (hung, ground arith, λ e. cc, λ _ _ e. cc)
          | inr (inr broken) ↦
              (undefined, ground arith, λ e. cc, λ defined _ _. defined channel broken)
        ]
      ]

  pub add_message_to_queue-missing :
      (i g : ℕ) (x : Bytes) (s : Server m)
      → slot_at s.clients i ≡ none
      → add_message_to_queue m async_send i g x s ≡ (undefined, s)
  unfolding add_message_to_queue
  add_message_to_queue-missing i g x s beyond = ground arith

  pub settled-some :
      (r : Outcome SendCode) (s : Server m) → r ≢ undefined → settled m (r, s) ≡ some s
  unfolding settled
  settled-some (done code) s defined = refl
  settled-some threw s defined = refl
  settled-some hung s defined = refl
  settled-some undefined s defined = absurd (defined refl)

  abbrev on_code :
      (Server m → Outcome (Unit {0}) × Server m)
      → SendCode
      → Server m
      → Outcome (Unit {0}) × Server m
  on_code again code = elim code [ expired_client ↦ again | _ ↦ pure tt ]

  after_code :
      (again : Server m → Outcome (Unit {0}) × Server m) (r : Outcome SendCode) (s : Server m)
      → r ≢ done expired_client
      → r ≢ undefined
      → settled m (and_then {B = Unit {0}} (r, s) (λ code. on_code again code)) ≡ some s
  unfolding settled
  after_code again (done expired_client) s h d = absurd (h refl)
  after_code again (done no_client) s h d = refl
  after_code again (done bad_signal) s h d = refl
  after_code again (done success) s h d = refl
  after_code again (done exception) s h d = refl
  after_code again threw s h d = refl
  after_code again hung s h d = refl
  after_code again undefined s h d = absurd (d refl)

  attempt-found :
      (again : Server m → Outcome (Unit {0}) × Server m) (k x : Bytes) (i : ClientIndex)
      (s : Server m) (slot : Slot Client) (c : Client)
      → find k s.client_indices ≡ some i
      → i.index ≢ invalid_index
      → slot_at s.clients i.index ≡ some slot
      → slot.object ≡ some c
      → ((n : ℕ) → async_send n ≢ undefined)
      → c.client_data.signal_channel ≢ none
      → settled m (attempt m async_send again k x s)
        ≡ some (record s { queues = add_message x c s.queues })
  unfolding attempt with_db_index
  attempt-found again k x i s slot c e inside at full sends channel =
      let (r, queued, known, defined) =
        add_message_to_queue-found i.index slot.generation x s slot c at full refl in
      let away : (i.index == invalid_index) ≡ false = ground arith in
      rw (get_client_index_present m k i s slot c e at full, attempt, away, queued)
        (after_code again r _ known (defined sends channel))

  -- A message for a key in the map is added to the queue of the client in the slot of its entry.
  pub forward-found :
      (tries : ℕ) (k x : Bytes) (i : ClientIndex) (s : Server m) (slot : Slot Client) (c : Client)
      → find k s.client_indices ≡ some i
      → i.index ≢ invalid_index
      → slot_at s.clients i.index ≡ some slot
      → slot.object ≡ some c
      → ((n : ℕ) → async_send n ≢ undefined)
      → c.client_data.signal_channel ≢ none
      → settled m (forward m async_send tries k x s)
        ≡ some (record s { queues = add_message x c s.queues })
  unfolding forward
  forward-found zero k x = attempt-found _ k x
  forward-found (suc tries) k x = attempt-found _ k x

  module _ (P : Bytes → Bytes → Type 0) where
    All-append_one :
        (k x : Bytes) (xs : List Bytes) → All (P k) xs → P k x → All (P k) (xs ++ x ∷ [])
    All-append_one k x [] h p = (p, tt)
    All-append_one k x (y ∷ ys) h p = (h.0, All-append_one k x ys h.1 p)

    -- A message for a key is added to the queue of a connection that has logged in with it.
    pub add_message-IsAddressed :
        (c : ℕ) (k x : Bytes) (i : ClientIndex) (slot : Slot Client) (cl : Client) (l : Logins m)
        → IsAddressed m P l
        → get_elem? l.connections c ≡ some (online k i)
        → i.index ≢ invalid_index
        → slot_at l.server.clients i.index ≡ some slot
        → slot.object ≡ some cl
        → P k x
        → IsAddressed m P
            (record l { server = record l.server { queues = add_message x cl l.server.queues } })
    unfolding add_message
    add_message-IsAddressed c k x i slot cl l h on inside at full p =
        let o = h.content c k i on inside in
        let mine : cl.client_data.messages ≡ some o.queue = ground (arith, o.here) in
        elim (Bool-cases cl.active) [
          | inr inactive ↦
              rw (mine, inactive)
                (requeued-IsAddressed m P l.server.queues l h refl (λ c' k' i' e w holds. holds))
          | inl active ↦
              rw (mine, active)
                (requeued-IsAddressed m P (modify (λ q. q ++ x ∷ []) l.server.queues o.queue) l h
                  (length-modify (λ q. q ++ x ∷ []) l.server.queues o.queue)
                  λ c' k' i' e w holds. elim (Bool-cases (o.queue == holds.queue)) [
                    | inl same ↦
                        let there : i.index ≡ i'.index =
                          h.queues.own i.index i'.index o.queue o.here
                            (holds.here ∙ ap some (sym (ground arith))) in
                        let one : c ≡ c' = h.orderly.apart c c' k k' i i' on e inside there in
                        let phase : online k i ≡ online k' i' = ground arith in
                        let key : k ≡ k' = ground arith in
                        record {
                          queue = holds.queue;
                          messages = holds.messages ++ x ∷ [];
                          here = holds.here;
                          held = ground (
                            arith,
                            holds.held,
                            get_elem?-modify_at (λ q. q ++ x ∷ []) l.server.queues o.queue
                                holds.queue o.messages o.held,
                          );
                          theirs =
                              All-append_one k' x holds.messages holds.theirs
                                (subst (λ z. P z x) key p);
                        }
                    | inr other ↦ record {
                      queue = holds.queue;
                      messages = holds.messages;
                      here = holds.here;
                      held = ground (
                        arith,
                        holds.held,
                        get_elem?-modify_at (λ q. q ++ x ∷ []) l.server.queues o.queue holds.queue
                            o.messages o.held,
                      );
                      theirs = holds.theirs;
                    }
                  ])
        ]
