-- ===== src/Server/Writer.antt =====
-- `socket_coroutine` of core/main/server.cpp: the coroutine that writes the messages of one client to
-- its socket. Other coroutines add messages and send signals while it is suspended; logins and
-- departures in between are left out.
pub mod Order
use mydak_server.Base.{
  ℕ, List, [], ◌∷◌, ◌++◌, Option, none, some, Bytes, get_elem?, modify, if◌then◌else◌, ◌>>=◌,
}
use mydak_server.Slot.{Slot, is_empty, get_slot_value}
use mydak_server.Client.{Client, ClientData, get_client_data}
use mydak_server.Database.{Mariadb}
use mydak_server.Server.{Server, get_client}

-- Where the coroutine is suspended: in `async_receive`, in `async_write` of the message at the front
-- of a queue to a socket, or past its end after an exception.
pub data Stage : Type 0 where
  receiving ended : Stage
  writing : ℕ → ℕ → Stage

-- `messages->pop()`
unfoldable pub pop_front : List Bytes → List Bytes
pop_front [] = []
pop_front (x ∷ xs) = xs

-- The condition of the inner loop, `!messages->empty()`.
unfoldable pub next_message : ℕ → ℕ → Option (List Bytes) → Stage
next_message socket queue none = Stage.receiving
next_message socket queue (some []) = Stage.receiving
next_message socket queue (some (x ∷ xs)) = Stage.writing socket queue

-- The first message of a queue, as `async_write` was given it.
unfoldable pub front : ℕ → Option (List Bytes) → List (ℕ × Bytes)
front socket none = []
front socket (some []) = []
front socket (some (x ∷ xs)) = (socket, x) ∷ []

-- The pointers of a client, if neither is null.
unfoldable pub pointers : ClientData → Option (ℕ × ℕ)
pointers d = do socket ← d.socket; messages ← d.messages; some (socket, messages)

-- What can happen next. A signal is received and a write ends only when the coroutine waits for it.
pub data WriterEvent : Type 0 where
  adds : ℕ → Bytes → WriterEvent
  signalled written failed : WriterEvent

module _ (m : Mariadb) where
  -- `sent` is what the sockets have been given, in order.
  pub record Writer : Type 0 where
    pub server : Server m
    pub stage : Stage
    pub sent : List (ℕ × Bytes)

  -- The guards behind `async_receive`: the slot exists, is occupied, and has its pointers.
  unfoldable pub socket_and_messages : ℕ → Server m → Option (ℕ × ℕ)
  socket_and_messages client_index s = elim (get_client m client_index s) [
    | none ↦ none
    | some slot ↦
        if is_empty slot
        then none
        else elim (get_slot_value slot) [ none ↦ none | some c ↦ pointers (get_client_data c) ]
  ]

  -- The coroutine has received a signal; `continue` receives the next one.
  unfoldable pub on_signal : ℕ → Writer → Writer
  on_signal client_index w = elim (socket_and_messages client_index w.server) [
    | none ↦ w
    | some (socket, queue) ↦ record w {
      stage = next_message socket queue (get_elem? w.server.queues queue);
    }
  ]

  -- `async_write` is complete; the message is popped and the inner loop goes on.
  unfoldable pub on_written : ℕ → ℕ → Writer → Writer
  on_written socket queue w =
      let queues = modify pop_front w.server.queues queue in
      record {
        server = record w.server { queues = queues };
        stage = next_message socket queue (get_elem? queues queue);
        sent = w.sent ++ front socket (get_elem? w.server.queues queue);
      }

  unfoldable pub resume : ℕ → WriterEvent → Stage → Writer → Writer
  resume client_index (adds queue message) stage w = record w {
    server = record w.server { queues = modify (λ q. q ++ message ∷ []) w.server.queues queue };
  }
  resume client_index signalled Stage.receiving w = on_signal client_index w
  resume client_index written (Stage.writing socket queue) w = on_written socket queue w
  resume client_index failed (Stage.writing socket queue) w = record w { stage = Stage.ended }
  resume client_index _ stage w = w

  unfoldable pub socket_coroutine : ℕ → List WriterEvent → Writer → Writer
  socket_coroutine client_index [] w = w
  socket_coroutine client_index (e ∷ es) w =
      socket_coroutine client_index es (resume client_index e w.stage w)
