-- ===== src/Server/Writer/Order.antt =====
-- A socket gets the messages of its client in the order in which they were added, in
-- core/main/server.cpp.
use mathlib.Core.List.{append_assoc, append-nil, map-append}
use mathlib.Core.Path.{subst}
use mydak_server.Base.{
  ℕ, ◌≡◌, ◌≢◌, refl, sym, ap, ◌∙◌, inl, inr, List, [], ◌∷◌, ◌++◌, map, some, arith, Bytes,
  get_elem?, modify, get_elem?-modify, get_elem?-modify_at, if◌then◌else◌, ◌==◌, Bool-cases,
}
use mydak_server.Database.{Mariadb}
use mydak_server.Server.{get_client}
use mydak_server.Server.Writer.{
  Stage, receiving, ended, writing, Writer, WriterEvent, adds, signalled, written, failed,
  pop_front, next_message, front, socket_and_messages, on_signal, on_written, resume,
  socket_coroutine,
}

-- What events add to a queue.
abbrev pub added : ℕ → List WriterEvent → List Bytes
added queue [] = []
added queue (adds r x ∷ es) = if r == queue then x ∷ added queue es else added queue es
added queue (signalled ∷ es) = added queue es
added queue (written ∷ es) = added queue es
added queue (failed ∷ es) = added queue es

module _ (m : Mariadb) (client_index socket queue : ℕ) where
  -- The coroutine writes only what is there, from its own queue to its own socket.
  abbrev pub IsAt : List Bytes → Stage → Type 0
  IsAt rest receiving = Unit
  IsAt rest ended = Unit
  IsAt rest (writing k q) = (k ≡ socket) × (q ≡ queue) × (rest ≢ [])

  -- The messages of a history are those that the socket has been given and those that the queue
  -- holds, in order, each once.
  pub record InOrder (history : List Bytes) (w : Writer m) : Type 0 where
    pub pointed : socket_and_messages m client_index w.server ≡ some (socket, queue)
    pub past : List Bytes
    pub rest : List Bytes
    pub given : w.sent ≡ map (λ (x : Bytes). (socket, x)) past
    pub held : get_elem? w.server.queues queue ≡ some rest
    pub order : past ++ rest ≡ history
    pub at : IsAt rest w.stage

  next-IsAt : (rest : List Bytes) → IsAt rest (next_message socket queue (some rest))
  unfolding next_message
  next-IsAt [] = tt
  next-IsAt (x ∷ xs) = (refl, refl, λ e. cc)

  append-IsAt :
      (stage : Stage) (rest : List Bytes) (x : Bytes)
      → IsAt rest stage
      → IsAt (rest ++ x ∷ []) stage
  append-IsAt receiving rest x h = tt
  append-IsAt ended rest x h = tt
  append-IsAt (writing k q) [] x (a, b, c) = (a, b, λ e. cc)
  append-IsAt (writing k q) (y ∷ ys) x (a, b, c) = (a, b, λ e. cc)

  adds-InOrder :
      (history : List Bytes) (w : Writer m) (r : ℕ) (x : Bytes)
      → InOrder history w
      → InOrder
          (history ++ added queue (adds r x ∷ []))
          (resume m client_index (adds r x) w.stage w)
  unfolding resume socket_and_messages get_client
  adds-InOrder history w r x h = elim (Bool-cases (r == queue)) [
    | inl same ↦ record {
      pointed = h.pointed;
      past = h.past;
      rest = h.rest ++ x ∷ [];
      given = h.given;
      held = ground (arith, get_elem?-modify (λ q. q ++ x ∷ []) w.server.queues r queue, h.held);
      order = rw (same, ← h.order, append_assoc) refl;
      at = append-IsAt w.stage h.rest x h.at;
    }
    | inr other ↦ record {
      pointed = h.pointed;
      past = h.past;
      rest = h.rest;
      given = h.given;
      held = ground (arith, get_elem?-modify (λ q. q ++ x ∷ []) w.server.queues r queue, h.held);
      order = rw (other, append-nil) h.order;
      at = h.at;
    }
  ]

  signal-InOrder :
      (history : List Bytes) (w : Writer m)
      → InOrder history w
      → InOrder history (on_signal m client_index w)
  unfolding on_signal
  signal-InOrder history w h =
      rw (on_signal, h.pointed)
        (record {
          pointed = h.pointed;
          past = h.past;
          rest = h.rest;
          given = h.given;
          held = h.held;
          order = h.order;
          at = rw h.held (next-IsAt h.rest);
        })

  -- The writer after the message at the front has been written.
  written-InOrder :
      (history : List Bytes) (w : Writer m)
      → (h : InOrder history w) → h.rest ≢ []
      → InOrder history (on_written m socket queue w)
  unfolding on_written front socket_and_messages get_client pop_front
  written-InOrder history w h some_left = go h.rest refl
    where
      go : (rest : List Bytes) → h.rest ≡ rest → InOrder history (on_written m socket queue w)
      go [] e = absurd (some_left e)
      go (x ∷ xs) e =
          let held : get_elem? w.server.queues queue ≡ some (x ∷ xs) = h.held ∙ ap some e in
          let popped : get_elem? (modify pop_front w.server.queues queue) queue ≡ some xs =
            ground
              (arith, get_elem?-modify_at pop_front w.server.queues queue queue (x ∷ xs) held) in
          record {
            pointed = h.pointed;
            past = h.past ++ x ∷ [];
            rest = xs;
            given = rw held (
                ap (λ l. l ++ (socket, x) ∷ []) h.given
                ∙ sym (map-append (λ (y : Bytes). (socket, y)) h.past (x ∷ [])));
            held = popped;
            order = append_assoc h.past (x ∷ []) xs ∙ ap (◌++◌ h.past) (sym e) ∙ h.order;
            at = rw popped (next-IsAt xs);
          }

  no_message : (history : List Bytes) (w : Writer m) → InOrder history w → InOrder (history ++ []) w
  no_message history w h = subst (λ l. InOrder l w) (sym (append-nil history)) h

  resume-InOrder :
      (e : WriterEvent) (stage : Stage) (history : List Bytes) (w : Writer m)
      → w.stage ≡ stage
      → InOrder history w
      → InOrder (history ++ added queue (e ∷ [])) (resume m client_index e stage w)
  unfolding resume
  resume-InOrder (adds r x) stage history w e h = adds-InOrder history w r x h
  resume-InOrder signalled receiving history w e h =
      no_message history _ (signal-InOrder history w h)
  resume-InOrder signalled (writing k q) history w e h = no_message history w h
  resume-InOrder signalled ended history w e h = no_message history w h
  resume-InOrder written receiving history w e h = no_message history w h
  resume-InOrder written ended history w e h = no_message history w h
  resume-InOrder written (writing k q) history w e h =
      let (k_is, q_is, left) = subst (IsAt h.rest) e h.at in
      rw (k_is, q_is)
        (no_message history (on_written m socket queue w) (written-InOrder history w h left))
  resume-InOrder failed receiving history w e h = no_message history w h
  resume-InOrder failed ended history w e h = no_message history w h
  resume-InOrder failed (writing k q) history w e h =
      no_message history (record w { stage = ended })
        (record {
          pointed = h.pointed;
          past = h.past;
          rest = h.rest;
          given = h.given;
          held = h.held;
          order = h.order;
          at = tt;
        })

  added-cons :
      (e : WriterEvent) (es : List WriterEvent)
      → added queue (e ∷ es) ≡ added queue (e ∷ []) ++ added queue es
  added-cons (adds r x) es = ground arith
  added-cons signalled es = refl
  added-cons written es = refl
  added-cons failed es = refl

  -- Take a client whose slot has a socket and a queue, and a history of messages of which a first
  -- part has been given to that socket and the rest stands in that queue. After any events that add
  -- messages to queues, send signals, complete writes or make them fail, the same holds of the
  -- history with the messages added to that queue at its end: each is given to the socket once, in
  -- order, and never before it was added, or stands in the queue still.
  pub socket_coroutine-InOrder :
      (es : List WriterEvent) (history : List Bytes) (w : Writer m)
      → InOrder history w
      → InOrder (history ++ added queue es) (socket_coroutine m client_index es w)
  unfolding socket_coroutine
  socket_coroutine-InOrder [] history w h = no_message history w h
  socket_coroutine-InOrder (e ∷ es) history w h =
      subst
        (λ l. InOrder l (socket_coroutine m client_index es (resume m client_index e w.stage w)))
        (append_assoc history (added queue (e ∷ [])) (added queue es)
          ∙ ap (◌++◌ history) (sym (added-cons e es)))
        (socket_coroutine-InOrder es (history ++ added queue (e ∷ []))
          (resume m client_index e w.stage w) (resume-InOrder e w.stage history w refl h))
