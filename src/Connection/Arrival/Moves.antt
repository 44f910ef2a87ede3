-- ===== src/Connection/Arrival/Moves.antt =====
-- Each event between a sender and the socket of a recipient, in core/main/connection.cpp and
-- `socket_coroutine` of core/main/server.cpp, takes the messages one step further.
use mathlib.Core.List.{append_assoc, map-append}
use mathlib.Core.Path.{subst}
use mydak_server.Base.{
  ℕ, suc, ◌+◌, ◌*◌, ◌≡◌, ◌≢◌, refl, sym, ap, ◌∙◌, inl, inr, ◌⊎◌, Bool, true, false, List, [], ◌∷◌,
  ◌++◌, map, Option, some, arith, Bytes, All, length, modify, get_elem?, get_elem?-modify_at,
  if◌then◌else◌, length-append,
}
use mydak_server.Task.{hung}
use mydak_server.ClientIndex.{ClientIndex}
use mydak_server.Slot.{Slot}
use mydak_server.Client.{Client}
use mydak_server.Wire.{Endian, queue_message}
use mydak_server.Wire.Frame.{IsFrame, frame_bytes, receive-frame_bytes}
use mydak_server.Database.{Mariadb}
use mydak_server.Server.{Server}
use mydak_server.Server.Writer.{
  Stage, receiving, writing, ended, pop_front, next_message, front, on_signal, on_written,
}
use mydak_server.Connection.{forward}
use mydak_server.Connection.Forward.{online_message_is_queued}
use mydak_server.Connection.Traffic.{suspended, signal_outcome}
use mydak_server.Connection.Arrival.{
  PassageEvent, reads, signals, completes, Passage, passage_step, read_frame, pass_signal,
  complete_write, frames_to, queued_messages, IsOnline, IsOnline-pointed,
}

-- A sender that is suspended still has its signal to pass on.
abbrev pub pending : Bool → ℕ
pending sending = if sending then 1 else 0

module _ (m : Mariadb) (e : Endian) (sender recipient : Bytes) (i : ClientIndex)
    (slot : Slot Client) (c : Client) (socket queue channel : ℕ) where
  abbrev Online : Server m → Type 0
  Online = IsOnline m recipient i slot c socket queue channel

  -- A coroutine that waits for a signal has left nothing behind, or a signal is on its way. One
  -- that writes, writes what is there.
  abbrev pub IsAt : Bool → List Bytes → Stage → Type 0
  IsAt sending waiting receiving = (waiting ≡ []) ⊎ (sending ≡ true)
  IsAt sending waiting (writing k q) = (k ≡ socket) × (q ≡ queue) × (waiting ≢ [])
  IsAt sending waiting ended = ⊥

  -- The messages that the socket has been given, those in the queue and those in the stream.
  pub record Passing (all : List Bytes) (sent : List (ℕ × Bytes)) (steps : ℕ) (p : Passage m)
      : Type 0 where
    pub written : List Bytes
    pub waiting : List Bytes
    pub unread : List Bytes
    pub online : Online p.writer.server
    pub frames : All (IsFrame recipient) unread
    pub stream : p.stream ≡ frames_to recipient unread
    pub held : get_elem? p.writer.server.queues queue ≡ some waiting
    pub given : p.writer.sent ≡ sent ++ map (λ (x : Bytes). (socket, x)) written
    pub order : written ++ (waiting ++ queued_messages e sender unread) ≡ all
    pub at : IsAt p.sending waiting p.writer.stage
    pub left : 3 * length unread + length waiting + pending p.sending ≡ steps

  abbrev pub next_passage : PassageEvent → Passage m → Option (Passage m)
  next_passage = passage_step m e sender i.index

  -- The event can happen, and then one step fewer is left.
  abbrev pub Moves : List Bytes → List (ℕ × Bytes) → ℕ → PassageEvent → Passage m → Type 0
  Moves all sent steps event p =
      (q : Passage m) × (n : ℕ) × (next_passage event p ≡ some q)
      × (steps ≡ suc n)
      × Passing all sent n q

  more-IsAt :
      (sending : Bool) (waiting : List Bytes) (y : Bytes) (stage : Stage)
      → IsAt sending waiting stage
      → IsAt true (waiting ++ y ∷ []) stage
  more-IsAt sending waiting y receiving h = inr refl
  more-IsAt sending [] y (writing k q) (a, b, f) = (a, b, λ e. cc)
  more-IsAt sending (x ∷ xs) y (writing k q) (a, b, f) = (a, b, λ e. cc)
  more-IsAt sending waiting y ended h = absurd h

  next-IsAt :
      (sending : Bool) (waiting : List Bytes)
      → IsAt sending waiting (next_message socket queue (some waiting))
  unfolding next_message
  next-IsAt sending [] = inl refl
  next-IsAt sending (x ∷ xs) = (refl, refl, λ e. cc)

  queued-IsOnline :
      (queues : List (List Bytes)) (s : Server m) → Online s → Online (record s { queues = queues })
  queued-IsOnline queues s h = record {
    serving = record { registry = h.serving.registry; served = h.serving.served };
    entry = h.entry;
    inside = h.inside;
    at = h.at;
    occupied = h.occupied;
    ready = h.ready;
    has_socket = h.has_socket;
  }

  pub read-Moves :
      (all : List Bytes) (sent : List (ℕ × Bytes)) (steps : ℕ) (p : Passage m) (x : Bytes)
      (xs : List Bytes) (h : Passing all sent steps p)
      → h.unread ≡ x ∷ xs
      → p.sending ≡ false
      → Moves all sent steps reads p
  unfolding passage_step signal_outcome
  read-Moves all sent steps p x xs h first idle =
      let s = p.writer.server in
      let y = queue_message e sender x in
      let frames : All (IsFrame recipient) (x ∷ xs) =
        subst (All (IsFrame recipient)) first h.frames in
      let bytes : p.stream ≡ frame_bytes recipient x ++ frames_to recipient xs =
        h.stream ∙ ap (frames_to recipient) first in
      let queues = modify (λ q. q ++ y ∷ []) s.queues queue in
      let forwarded : forward m (signal_outcome suspended) 2 recipient y s
          ≡ (hung, record s { queues = queues }) =
        online_message_is_queued m (signal_outcome suspended) 2 recipient y i s slot c queue channel
          h.online.serving h.online.entry h.online.inside h.online.at h.online.occupied
          h.online.ready in
      let count : length h.unread ≡ suc (length xs) = ap length first in
      (
        record {
          writer = record p.writer { server = record s { queues = queues } };
          stream = frames_to recipient xs;
          sending = true;
        },
        3 * length xs + length (h.waiting ++ y ∷ []) + 1,
        rw
            (
              idle,
              bytes,
              receive-frame_bytes e recipient x (frames_to recipient xs) frames.0,
              read_frame,
              forwarded,
            )
            refl,
        omega (arith, h.left, count, length-append h.waiting (y ∷ []), ap pending idle),
        record {
          written = h.written;
          waiting = h.waiting ++ y ∷ [];
          unread = xs;
          online = queued-IsOnline queues s h.online;
          frames = frames.1;
          stream = refl;
          held =
              ground (
                arith,
                get_elem?-modify_at (λ q. q ++ y ∷ []) s.queues queue queue h.waiting h.held,
              );
          given = h.given;
          order =
              ap (λ l. h.written ++ l)
                (append_assoc h.waiting (y ∷ []) (queued_messages e sender xs)
                  ∙ ap (λ l. h.waiting ++ queued_messages e sender l) (sym first))
              ∙ h.order;
          at = more-IsAt p.sending h.waiting y p.writer.stage h.at;
          left = refl;
        },
      )

  pub signal-Moves :
      (all : List Bytes) (sent : List (ℕ × Bytes)) (steps : ℕ) (p : Passage m)
      → Passing all sent steps p
      → p.writer.stage ≡ receiving
      → p.sending ≡ true
      → Moves all sent steps signals p
  unfolding passage_step on_signal
  signal-Moves all sent steps p h waits ready = (
    record p {
      writer = record p.writer { stage = next_message socket queue (some h.waiting) };
      sending = false;
    },
    3 * length h.unread + length h.waiting + 0,
    rw
        (
          ready,
          waits,
          pass_signal,
          on_signal,
          IsOnline-pointed m recipient i slot c socket queue channel p.writer.server h.online,
          h.held,
        )
        refl,
    omega (arith, h.left, ap pending ready),
    record {
      written = h.written;
      waiting = h.waiting;
      unread = h.unread;
      online = h.online;
      frames = h.frames;
      stream = h.stream;
      held = h.held;
      given = h.given;
      order = h.order;
      at = next-IsAt false h.waiting;
      left = refl;
    },
  )

  pub write-Moves :
      (all : List Bytes) (sent : List (ℕ × Bytes)) (steps : ℕ) (p : Passage m) (x : Bytes)
      (xs : List Bytes) (h : Passing all sent steps p)
      → p.writer.stage ≡ writing socket queue
      → h.waiting ≡ x ∷ xs
      → Moves all sent steps completes p
  unfolding passage_step on_written front pop_front
  write-Moves all sent steps p x xs h writes first =
      let s = p.writer.server in
      let queues = modify pop_front s.queues queue in
      let held : get_elem? s.queues queue ≡ some (x ∷ xs) = h.held ∙ ap some first in
      let popped : get_elem? queues queue ≡ some xs =
        ground (arith, get_elem?-modify_at pop_front s.queues queue queue (x ∷ xs) held) in
      let count : length h.waiting ≡ suc (length xs) = ap length first in
      (
        record p {
          writer = record {
            server = record s { queues = queues };
            stage = next_message socket queue (some xs);
            sent = p.writer.sent ++ (socket, x) ∷ [];
          };
        },
        3 * length h.unread + length xs + pending p.sending,
        rw (writes, complete_write, on_written, popped, held) refl,
        omega (arith, h.left, count),
        record {
          written = h.written ++ x ∷ [];
          waiting = xs;
          unread = h.unread;
          online = queued-IsOnline queues s h.online;
          frames = h.frames;
          stream = h.stream;
          held = popped;
          given =
              ap (λ l. l ++ (socket, x) ∷ []) h.given
              ∙ append_assoc sent (map (λ (z : Bytes). (socket, z)) h.written) ((socket, x) ∷ [])
              ∙ ap (λ l. sent ++ l)
                  (sym (map-append (λ (z : Bytes). (socket, z)) h.written (x ∷ [])));
          order =
              append_assoc h.written (x ∷ []) (xs ++ queued_messages e sender h.unread)
              ∙ ap (λ l. h.written ++ (l ++ queued_messages e sender h.unread)) (sym first)
              ∙ h.order;
          at = next-IsAt p.sending xs;
          left = refl;
        },
      )
