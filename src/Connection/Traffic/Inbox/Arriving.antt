-- ===== src/Connection/Traffic/Inbox/Arriving.antt =====
-- Messages and writes, and the queue of one connection, in core/main/server.cpp.
use mydak_server.Base.{
  ℕ, ◌+◌, ◌<◌, ◌≡◌, ◌≢◌, refl, ap, ◌∙◌, inl, inr, Bool-cases, true, false, List, [], ◌∷◌, ◌++◌,
  Option, none, some, Option-cases, arith, Bytes, bytes_eq, bytes_eq_iff, find, length, get_elem?,
  get_elem?-modify_at, get_elem?-modify, modify, ◌==◌, if◌then◌else◌, word, ◌>>=◌,
}
use mydak_server.Task.{undefined}
use mydak_server.ClientIndex.{ClientIndex, invalid_index}
use mydak_server.Slot.{Slot}
use mydak_server.SlotVector.{slot_at}
use mydak_server.Client.{Client, add_message}
use mydak_server.Database.{Mariadb}
use mydak_server.Database.Operations.Tables.{Documented}
use mydak_server.Server.{add_message_to_db}
use mydak_server.Server.Writer.{pop_front}
use mydak_server.Server.Logins.{Phase, asking, online, gone, Logins}
use mydak_server.Connection.Forward.{forward_offline}
use mydak_server.Connection.Traffic.{
  SignalEnd, signal_outcome, sends, delivers, writes, settled, deliver, traffic_step,
}
use mydak_server.Connection.Traffic.Addressed.{IsAddressed}
use mydak_server.Connection.Traffic.Messages.{
  settled-some, add_message_to_queue-found, forward-found,
}
use mydak_server.Connection.Traffic.Steps.{IsAllowed, signal_outcome-defined}
use mydak_server.Connection.Traffic.Inbox.{Inbox, Then, Anything, received, just, requeued, stored}

-- A message that is added to the queue of an active client.
add_message-here :
    (x : Bytes) (cl : Client) (queues : List (List Bytes)) (q : ℕ) (xs : List Bytes)
    → cl.client_data.messages ≡ some q
    → cl.active ≡ true
    → get_elem? queues q ≡ some xs
    → get_elem? (add_message x cl queues) q ≡ some (xs ++ x ∷ [])
unfolding add_message
add_message-here x cl queues q xs mine active held =
    ground (arith, get_elem?-modify_at (λ ys. ys ++ x ∷ []) queues q q xs held)

-- Another queue is as before.
add_message-elsewhere :
    (x : Bytes) (cl : Client) (queues : List (List Bytes)) (q : ℕ)
    → cl.client_data.messages ≢ some q
    → get_elem? (add_message x cl queues) q ≡ get_elem? queues q
unfolding add_message
add_message-elsewhere x cl queues q other = elim (Option-cases cl.client_data.messages) [
  | inl missing ↦ ground arith
  | inr (q', its) ↦ ground (arith, get_elem?-modify (λ ys. ys ++ x ∷ []) queues q' q)
]

module _ (m : Mariadb) (doc : Documented m) (c : ℕ) (k : Bytes) (i : ClientIndex) (q : ℕ) where
  -- A message for a connection that has logged in goes to the queue of that connection.
  added-Inbox :
      (c' : ℕ) (k' x : Bytes) (i' : ClientIndex) (slot : Slot Client) (cl : Client)
      (messages : List Bytes) (l : Logins m)
      → IsAddressed m Anything l
      → Inbox m c k i q messages l
      → get_elem? l.connections c' ≡ some (online k' i')
      → slot_at l.server.clients i'.index ≡ some slot
      → slot.object ≡ some cl
      → Inbox m c k i q
          (if c' == c then messages ++ x ∷ [] else messages)
          (record l { server = record l.server { queues = add_message x cl l.server.queues } })
  added-Inbox c' k' x i' slot cl messages l a h on at full = elim (Bool-cases (c' == c)) [
    | inl same ↦
        let phase : online k' i' ≡ online k i = ground (arith, h.on) in
        let its : cl ≡ h.client = ground (arith, h.here) in
        rw (same, its)
          (requeued m c k i q _ messages _ l h
            (add_message-here x h.client l.server.queues q messages h.mine h.active h.held))
    | inr other ↦
        let apart : cl.client_data.messages ≢ some q = λ e.
          let index : i.index ≡ i'.index =
            a.queues.own i.index i'.index q (ground (arith, h.here, h.mine))
              (ground (arith, at, full, e)) in
          let one : c ≡ c' = a.orderly.apart c c' k k' i i' h.on on h.inside index in
          ground arith in
        rw other (
          requeued m c k i q _ messages _ l h
            (add_message-elsewhere x cl l.server.queues q apart ∙ h.held))
  ]

  -- The key of an entry of the map names its connection.
  same_key :
      (c' : ℕ) (k' : Bytes) (i' : ClientIndex) (messages : List Bytes) (l : Logins m)
      → IsAddressed m Anything l
      → Inbox m c k i q messages l
      → get_elem? l.connections c' ≡ some (online k' i')
      → find k' l.server.client_indices ≡ some i'
      → (c' == c) ≡ bytes_eq k' k
  same_key c' k' i' messages l a h on known = elim (Bool-cases (c' == c)) [
    | inl same ↦
        let phase : online k' i' ≡ online k i = ground (arith, h.on) in
        let key : k' ≡ k = ground arith in ground (arith, bytes_eq_iff k' k)
    | inr other ↦ elim (Bool-cases (bytes_eq k' k)) [
      | inr differ ↦ ground arith
      | inl equal ↦
          let key : k' ≡ k = (bytes_eq_iff k' k).0 equal in
          let index : i ≡ i' =
            ground (arith, ap (λ j. find j l.server.client_indices) key, h.entry) in
          let one : c ≡ c' =
            a.orderly.apart c c' k k' i i' h.on on h.inside
              (ap (λ (j : ClientIndex). j.index) index) in
          absurd (ground arith)
    ]
  ]

  pub sends-Inbox :
      (end : SignalEnd) (k' x : Bytes) (messages : List Bytes) (l : Logins m)
      → IsAddressed m Anything l
      → Inbox m c k i q messages l
      → Then m c k i q
          (received c k q (sends end k' x) messages)
          (traffic_step m (sends end k' x) l)
  unfolding traffic_step settled add_message_to_db
  sends-Inbox end k' x messages l a h = elim (Option-cases (find k' l.server.client_indices)) [
    | inl offline ↦
        let other : bytes_eq k' k ≡ false = ground (arith, bytes_eq_iff k' k, h.entry) in
        rw
          (
            other,
            forward_offline m (signal_outcome end) 2 k' x l.server doc offline,
            settled,
            ◌>>=◌,
          )
          (just m c k i q messages _ (stored m c k i q _ messages l h))
    | inr (i', known) ↦
        let (c', on, inside) = a.orderly.listed k' i' known in
        let live = a.orderly.live c' k' i' on inside in
        rw
          (
            ← same_key c' k' i' messages l a h on known,
            forward-found m (signal_outcome end) 2 k' x i' l.server live.slot live.client known
                inside live.present live.occupied (signal_outcome-defined m doc Anything end)
                (a.channels.occupied i'.index live.slot live.client live.present live.occupied),
            ◌>>=◌,
          )
          (just m c k i q _ _ (
            added-Inbox c' k' x i' live.slot live.client messages l a h on live.present
              live.occupied))
  ]

  deliver-Inbox :
      (end : SignalEnd) (c' : ℕ) (x : Bytes) (p : Option Phase) (messages : List Bytes)
      (l : Logins m)
      → IsAddressed m Anything l
      → Inbox m c k i q messages l
      → get_elem? l.connections c' ≡ p
      → ((k' : Bytes) (i' : ClientIndex)
          → p ≡ some (online k' i')
          → Anything k' x × (i'.index ≢ invalid_index))
      → length l.server.clients.clients + 1 < word
      → Then m c k i q
          (received c k q (delivers end c' x) messages)
          (do s ← deliver m end p x l.server; some (record l { server = s }))
  unfolding deliver settled
  deliver-Inbox end c' x (some (online k' i')) messages l a h on allowed room =
      let inside : i'.index ≢ invalid_index = (allowed k' i' refl).1 in
      let live = a.orderly.live c' k' i' on inside in
      let (r, queued, _, defined) =
        add_message_to_queue-found m (signal_outcome end) i'.index i'.generation x l.server
          live.slot live.client live.present live.occupied live.same_life in
      let works : r ≢ undefined =
        defined (signal_outcome-defined m doc Anything end)
          (a.channels.occupied i'.index live.slot live.client live.present live.occupied) in
      rw (queued, deliver, settled-some m (signal_outcome end) r _ works, ◌>>=◌)
        (just m c k i q _ _ (
          added-Inbox c' k' x i' live.slot live.client messages l a h on live.present
            live.occupied))
  deliver-Inbox end c' x (some (asking k' socket channel)) messages l a h on allowed room =
      let other : (c' == c) ≡ false = ground (arith, h.on) in
      rw (other, deliver, ◌>>=◌) (just m c k i q messages l h)
  deliver-Inbox end c' x (some gone) messages l a h on allowed room =
      let other : (c' == c) ≡ false = ground (arith, h.on) in
      rw (other, deliver, ◌>>=◌) (just m c k i q messages l h)
  deliver-Inbox end c' x none messages l a h on allowed room =
      let other : (c' == c) ≡ false = ground (arith, h.on) in
      rw (other, deliver, ◌>>=◌) (just m c k i q messages l h)

  pub delivers-Inbox :
      (end : SignalEnd) (c' : ℕ) (x : Bytes) (messages : List Bytes) (l : Logins m)
      → IsAddressed m Anything l
      → Inbox m c k i q messages l
      → IsAllowed m doc Anything (delivers end c' x) l
      → length l.server.clients.clients + 1 < word
      → Then m c k i q
          (received c k q (delivers end c' x) messages)
          (traffic_step m (delivers end c' x) l)
  unfolding traffic_step
  delivers-Inbox end c' x messages l a h allowed room =
      deliver-Inbox end c' x (get_elem? l.connections c') messages l a h refl allowed room

  pub writes-Inbox :
      (q' : ℕ) (messages : List Bytes) (l : Logins m)
      → Inbox m c k i q messages l
      → Then m c k i q (received c k q (writes q') messages) (traffic_step m (writes q') l)
  unfolding traffic_step
  writes-Inbox q' messages l h = just m c k i q _ _ (
      requeued m c k i q (modify pop_front l.server.queues q') messages _ l h
        (ground (arith, get_elem?-modify pop_front l.server.queues q' q, h.held)))
