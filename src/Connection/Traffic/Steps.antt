-- ===== src/Connection/Traffic/Steps.antt =====
-- Each event of the traffic in core/main/connection.cpp and server.cpp.
use mydak_server.Base.{
  ℕ, ◌+◌, ◌≤◌, ◌<◌, ◌≡◌, ◌≢◌, refl, inl, inr, Bool-cases, List, [], ◌∷◌, Option, none, some,
  Option-cases, arith, Bytes, All, word, find, length, length-modify, get_elem?, get_elem?-modify,
  modify, ◌==◌, ◌>>=◌,
}
use mydak_server.Task.{undefined}
use mydak_server.ClientIndex.{ClientIndex, invalid_index}
use mydak_server.Database.{Mariadb}
use mydak_server.Database.Operations.Tables.{Documented}
use mydak_server.Server.{Server, add_message_to_db}
use mydak_server.Server.Writer.{pop_front}
use mydak_server.Server.Logins.{
  Phase, asking, online, gone, LoginEvent, connects, answered, ends, Logins, begin_login,
  answer_login, end_login, login_step,
}
use mydak_server.Server.Logins.Finish.{answer_login-Finished}
use mydak_server.Server.Logins.Leave.{end_login-IsOrderly}
use mydak_server.Connection.Forward.{forward_offline}
use mydak_server.Connection.Traffic.{
  SignalEnd, received, failed, suspended, signal_outcome, TrafficEvent, registers, sends, delivers,
  writes, settled, deliver, traffic_step,
}
use mydak_server.Connection.Traffic.Addressed.{
  IsAddressed, begin_login-IsAddressed, Finished-IsAddressed, end_login-IsAddressed,
  requeued-IsAddressed, stored-IsAddressed,
}
use mydak_server.Connection.Traffic.Messages.{
  settled-some, add_message_to_queue-found, forward-found, add_message-IsAddressed,
}

module _ (m : Mariadb) (doc : Documented m) (P : Bytes → Bytes → Type 0) where
  -- A connection that logs in has a channel. A message for a key has the property, and so has one that
  -- is read from the row of a key; the row of the empty index has none.
  abbrev pub IsAllowed : TrafficEvent → Logins m → Type 0
  IsAllowed (registers (connects k socket channel)) l = channel ≢ none
  IsAllowed (registers _) l = Unit
  IsAllowed (sends end k x) l = P k x
  IsAllowed (delivers end c x) l =
      (k : Bytes) (i : ClientIndex)
      → get_elem? l.connections c ≡ some (online k i)
      → P k x × (i.index ≢ invalid_index)
  IsAllowed (writes q) l = Unit

  -- The event is defined and leaves each message with its key, and at most one slot is added.
  abbrev pub Goes : Logins m → Option (Logins m) → Type 0
  Goes l r =
      (l' : Logins m) × (r ≡ some l')
      × IsAddressed m P l'
      × (length l'.server.clients.clients ≤ length l.server.clients.clients + 1)

  answer-Goes :
      (c id : ℕ) (p : Option Phase) (l : Logins m)
      → IsAddressed m P l
      → get_elem? l.connections c ≡ p
      → length l.server.clients.clients + 1 < word
      → Goes l (answer_login m c id p l)
  answer-Goes c id (some (asking k socket channel)) l h at room =
      let (i, l', ran, f) = answer_login-Finished m c id k socket channel l h.orderly at room in
      (l', ran, Finished-IsAddressed m P c k socket channel i l l' h at f, f.grown)
  answer-Goes c id (some (online k i)) l h at room =
      (l, unfold answer_login in refl, h, omega arith)
  answer-Goes c id (some gone) l h at room = (l, unfold answer_login in refl, h, omega arith)
  answer-Goes c id none l h at room = (l, unfold answer_login in refl, h, omega arith)

  end-Goes :
      (c : ℕ) (p : Option Phase) (l : Logins m)
      → IsAddressed m P l
      → get_elem? l.connections c ≡ p
      → length l.server.clients.clients + 1 < word
      → Goes l (some (end_login m c p l))
  end-Goes c (some (online k i)) l h at room =
      let (_, same) = end_login-IsOrderly m c k i l h.orderly at (omega arith) in
      (
        end_login m c (some (online k i)) l,
        refl,
        end_login-IsAddressed m P c k i l h at (omega arith),
        omega arith,
      )
  end-Goes c (some (asking k socket channel)) l h at room =
      (l, unfold end_login in refl, h, omega arith)
  end-Goes c (some gone) l h at room = (l, unfold end_login in refl, h, omega arith)
  end-Goes c none l h at room = (l, unfold end_login in refl, h, omega arith)

  login-Goes :
      (e : LoginEvent) (l : Logins m)
      → IsAddressed m P l
      → IsAllowed (registers e) l
      → length l.server.clients.clients + 1 < word
      → Goes l (login_step m e l)
  unfolding login_step
  login-Goes (connects k socket channel) l h real room = (
    begin_login m k socket channel l,
    refl,
    begin_login-IsAddressed m P k socket channel l real h,
    unfold begin_login in omega arith,
  )
  login-Goes (answered c id) l h _ room = answer-Goes c id (get_elem? l.connections c) l h refl room
  login-Goes (ends c) l h _ room = end-Goes c (get_elem? l.connections c) l h refl room

  -- No end of a send is undefined.
  pub signal_outcome-defined : (end : SignalEnd) (n : ℕ) → signal_outcome end n ≢ undefined
  unfolding signal_outcome
  signal_outcome-defined received n e = cc
  signal_outcome-defined failed n e = cc
  signal_outcome-defined suspended n e = cc

  sends-Goes :
      (end : SignalEnd) (k x : Bytes) (l : Logins m)
      → IsAddressed m P l
      → P k x
      → Goes l (traffic_step m (sends end k x) l)
  unfolding traffic_step settled add_message_to_db
  sends-Goes end k x l h p = elim (Option-cases (find k l.server.client_indices)) [
    | inl offline ↦
        rw (forward_offline m (signal_outcome end) 2 k x l.server doc offline, settled, ◌>>=◌)
          (_, refl, stored-IsAddressed m P _ l h, omega arith)
    | inr (i, known) ↦
        let (c, on, inside) = h.orderly.listed k i known in
        let live = h.orderly.live c k i on inside in
        rw
          (
            forward-found m (signal_outcome end) 2 k x i l.server live.slot live.client known inside
                live.present live.occupied (signal_outcome-defined end)
                (h.channels.occupied i.index live.slot live.client live.present live.occupied),
            ◌>>=◌,
          )
          (
            _,
            refl,
            add_message-IsAddressed m (signal_outcome end) P c k x i live.slot live.client l h on
                inside live.present live.occupied p,
            omega arith,
          )
  ]

  same-Goes :
      (l : Logins m)
      → IsAddressed m P l
      → (r : Option (Server m)) → r ≡ some l.server
      → Goes l (do s ← r; some (record l { server = s }))
  same-Goes l h r e = rw (e, ◌>>=◌) (l, refl, h, omega arith)

  deliver-Goes :
      (end : SignalEnd) (c : ℕ) (x : Bytes) (p : Option Phase) (l : Logins m)
      → IsAddressed m P l
      → get_elem? l.connections c ≡ p
      → length l.server.clients.clients + 1 < word
      → ((k : Bytes) (i : ClientIndex) → p ≡ some (online k i) → P k x × (i.index ≢ invalid_index))
      → Goes l (do s ← deliver m end p x l.server; some (record l { server = s }))
  unfolding deliver settled
  deliver-Goes end c x (some (online k i)) l h on room allowed =
      let (meets, inside) = allowed k i refl in
      let live = h.orderly.live c k i on inside in
      let (r, queued, _, defined) =
        add_message_to_queue-found m (signal_outcome end) i.index i.generation x l.server live.slot
          live.client live.present live.occupied live.same_life in
      let works : r ≢ undefined =
        defined (signal_outcome-defined end)
          (h.channels.occupied i.index live.slot live.client live.present live.occupied) in
      rw (queued, deliver, settled-some m (signal_outcome end) r _ works, ◌>>=◌)
        (
          _,
          refl,
          add_message-IsAddressed m (signal_outcome end) P c k x i live.slot live.client l h on
              inside live.present live.occupied meets,
          omega arith,
        )
  deliver-Goes end c x (some (asking k socket channel)) l h on room allowed =
      same-Goes l h (some l.server) refl
  deliver-Goes end c x (some gone) l h on room allowed = same-Goes l h (some l.server) refl
  deliver-Goes end c x none l h on room allowed = same-Goes l h (some l.server) refl

  All-pop_front : (k : Bytes) (xs : List Bytes) → All (P k) xs → All (P k) (pop_front xs)
  unfolding pop_front
  All-pop_front k [] h = tt
  All-pop_front k (x ∷ xs) h = h.1

  writes-Goes : (q : ℕ) (l : Logins m) → IsAddressed m P l → Goes l (traffic_step m (writes q) l)
  unfolding traffic_step
  writes-Goes q l h = (
    _,
    refl,
    requeued-IsAddressed m P (modify pop_front l.server.queues q) l h
        (length-modify pop_front l.server.queues q)
        λ c k i on inside o. elim (Bool-cases (q == o.queue)) [
          | inl same ↦ record {
            queue = o.queue;
            messages = pop_front o.messages;
            here = o.here;
            held = ground (arith, get_elem?-modify pop_front l.server.queues q o.queue, o.held);
            theirs = All-pop_front k o.messages o.theirs;
          }
          | inr other ↦ record {
            queue = o.queue;
            messages = o.messages;
            here = o.here;
            held = ground (arith, get_elem?-modify pop_front l.server.queues q o.queue, o.held);
            theirs = o.theirs;
          }
        ],
    omega arith,
  )

  pub step-Goes :
      (e : TrafficEvent) (l : Logins m)
      → IsAddressed m P l
      → IsAllowed e l
      → length l.server.clients.clients + 1 < word
      → Goes l (traffic_step m e l)
  step-Goes (registers e) l h allowed room = unfold traffic_step in login-Goes e l h allowed room
  step-Goes (sends end k x) l h allowed room = sends-Goes end k x l h allowed
  step-Goes (delivers end c x) l h allowed room =
      unfold traffic_step in deliver-Goes end c x (get_elem? l.connections c) l h refl room allowed
  step-Goes (writes q) l h allowed room = writes-Goes q l h
