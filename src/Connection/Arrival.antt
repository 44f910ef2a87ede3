-- ===== src/Connection/Arrival.antt =====
-- From the frames of a sender to the socket of a recipient: core/main/connection.cpp and
-- `socket_coroutine` of core/main/server.cpp together. The channel between them has no buffer, so
-- that the sender is suspended in `async_send` until the coroutine of the recipient receives.
pub mod Moves
pub mod Progress
use mydak_server.Base.{
  ℕ, ◌≡◌, ◌≢◌, Bool, true, false, List, [], ◌∷◌, ◌++◌, Option, none, some, arith, Bytes, All,
  length, find, get_elem?, get_elem?_lt, lt→ltb, if◌then◌else◌, ◌>>=◌,
}
use mydak_server.ClientIndex.{ClientIndex, invalid_index}
use mydak_server.Slot.{Slot, is_empty, get_slot_value}
use mydak_server.SlotVector.{slot_at}
use mydak_server.Client.{Client, get_client_data}
use mydak_server.Wire.{Endian, Received, receive, queue_message}
use mydak_server.Wire.Frame.{IsFrame, frame_bytes}
use mydak_server.Database.{Mariadb}
use mydak_server.Server.{Server, get_client}
use mydak_server.Server.Registry.{IsServing}
use mydak_server.Server.Delivery.{IsReady}
use mydak_server.Server.Writer.{
  Writer, Stage, receiving, writing, ended, pointers, socket_and_messages, on_signal, on_written,
}
use mydak_server.Connection.{forward}
use mydak_server.Connection.Traffic.{SignalEnd, signal_outcome}

-- What can happen next: the sender reads a frame and adds its message to a queue, the signal passes
-- through the channel, or a write to the socket is complete.
pub data PassageEvent : Type 0 where
  reads signals completes : PassageEvent

module _ (m : Mariadb) where
  -- The recipient's coroutine, what the sender's socket holds, and whether the sender is suspended
  -- in `async_send`.
  pub record Passage : Type 0 where
    pub writer : Writer m
    pub stream : Bytes
    pub sending : Bool

  module _ (e : Endian) (sender : Bytes) (client_index : ℕ) where
    -- A frame is forwarded up to the `async_send`, which does not return yet.
    read_frame : Received → Passage → Option Passage
    read_frame (Received.frame recipient message rest) p = some (record {
      writer = record p.writer {
        server =
            (forward m (signal_outcome SignalEnd.suspended) 2 recipient
              (queue_message e sender message) p.writer.server).1;
      };
      stream = rest;
      sending = true;
    })
    read_frame _ p = none

    pass_signal : Stage → Passage → Option Passage
    pass_signal Stage.receiving p =
        some (record p { writer = on_signal m client_index p.writer; sending = false })
    pass_signal _ p = none

    complete_write : Stage → Passage → Option Passage
    complete_write (Stage.writing socket queue) p =
        some (record p { writer = on_written m socket queue p.writer })
    complete_write _ p = none

    -- `none` is an event that cannot happen: a suspended sender does not read on, and the signal
    -- passes only when one side sends and the other receives.
    unfoldable pub passage_step : PassageEvent → Passage → Option Passage
    unfolding read_frame pass_signal complete_write
    passage_step PassageEvent.reads p =
        if p.sending then none else read_frame (receive e p.stream) p
    passage_step PassageEvent.signals p = if p.sending then pass_signal p.writer.stage p else none
    passage_step PassageEvent.completes p = complete_write p.writer.stage p

    unfoldable pub passage_run : List PassageEvent → Passage → Option Passage
    passage_run [] p = some p
    passage_run (event ∷ events) p = do p' ← passage_step event p; passage_run events p'

-- The stream of frames that carry messages to one key.
abbrev pub frames_to : Bytes → List Bytes → Bytes
frames_to k [] = []
frames_to k (x ∷ xs) = frame_bytes k x ++ frames_to k xs

-- The messages as they stand in the queue.
abbrev pub queued_messages : Endian → Bytes → List Bytes → List Bytes
queued_messages e sender [] = []
queued_messages e sender (x ∷ xs) = queue_message e sender x ∷ queued_messages e sender xs

module _ (m : Mariadb) (recipient : Bytes) (i : ClientIndex) (slot : Slot Client) (c : Client)
    (socket queue channel : ℕ) where
  -- The recipient is online, with its socket, its queue and its channel.
  pub record IsOnline (s : Server m) : Type 0 where
    pub serving : IsServing m s
    pub entry : find recipient s.client_indices ≡ some i
    pub inside : i.index ≢ invalid_index
    pub at : slot_at s.clients i.index ≡ some slot
    pub occupied : slot.object ≡ some c
    pub ready : IsReady c queue channel
    pub has_socket : c.client_data.socket ≡ some socket

  pub IsOnline-pointed :
      (s : Server m) → IsOnline s → socket_and_messages m i.index s ≡ some (socket, queue)
  unfolding socket_and_messages get_client is_empty get_slot_value get_client_data pointers
  IsOnline-pointed s h = ground (
    arith,
    h.at,
    h.occupied,
    h.ready.messages,
    h.has_socket,
    lt→ltb i.index (length s.clients.clients) (get_elem?_lt s.clients.clients i.index slot h.at),
  )
