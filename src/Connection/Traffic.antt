-- ===== src/Connection/Traffic.antt =====
-- Many connections at once with their messages, in core/main/connection.cpp and server.cpp. A sender
-- looks the recipient up and adds its message without a wait in between.
pub mod Queues
pub mod Channels
pub mod Addressed
pub mod Messages
pub mod Steps
pub mod Safety
pub mod Inbox
use mydak_server.Base.{List, [], ◌∷◌, ℕ, Option, some, Bytes, get_elem?, modify, none, ◌>>=◌}
use mydak_server.Task.{Outcome, done, threw, hung, undefined}
use mydak_server.Database.{Mariadb}
use mydak_server.Server.{Server, add_message_to_queue}
use mydak_server.Server.Writer.{pop_front}
use mydak_server.Server.Logins.{Phase, online, LoginEvent, Logins, login_step}
use mydak_server.Connection.{forward}

-- How `async_send` on the channel of a client ends this time: the signal is received, or an exception
-- is thrown, or the coroutine stays suspended, since the channel has no buffer. The message is in the
-- queue in each case.
pub data SignalEnd : Type 0 where
  received failed suspended : SignalEnd

unfoldable pub signal_outcome : SignalEnd → ℕ → Outcome (Unit {0})
signal_outcome SignalEnd.received channel = done tt
signal_outcome SignalEnd.failed channel = threw
signal_outcome SignalEnd.suspended channel = hung

-- A login or a departure; a connection has a message for a key; a connection that has logged in adds
-- a message that it has read from its row to its own queue; a message has been written to a socket.
pub data TrafficEvent : Type 0 where
  registers : LoginEvent → TrafficEvent
  sends : SignalEnd → Bytes → Bytes → TrafficEvent
  delivers : SignalEnd → ℕ → Bytes → TrafficEvent
  writes : ℕ → TrafficEvent

module _ (m : Mariadb) where
  -- The server after a coroutine has run; `none` is undefined behaviour. If the coroutine throws or
  -- stays suspended, the others go on.
  unfoldable pub settled {ℓ} : {A : Type ℓ} → Outcome A × Server m → Option (Server m)
  settled (undefined, s) = none
  settled (done _, s) = some s
  settled (threw, s) = some s
  settled (hung, s) = some s

  -- A round of `send_delayed_messages`, which has the handle of the connection.
  deliver : SignalEnd → Option Phase → Bytes → Server m → Option (Server m)
  deliver end (some (online public_key indices)) message s =
      settled
        (add_message_to_queue m (signal_outcome end) indices.index indices.generation message s)
  deliver end _ message s = some s

  unfoldable pub traffic_step : TrafficEvent → Logins m → Option (Logins m)
  unfolding deliver
  traffic_step (TrafficEvent.registers e) l = login_step m e l
  traffic_step (TrafficEvent.sends end recipient message) l = do
    s ← settled (forward m (signal_outcome end) 2 recipient message l.server)
    some (record l { server = s })
  traffic_step (TrafficEvent.delivers end c message) l = do
    s ← deliver end (get_elem? l.connections c) message l.server
    some (record l { server = s })
  traffic_step (TrafficEvent.writes queue) l =
      some
        (record l { server = record l.server { queues = modify pop_front l.server.queues queue } })

  unfoldable pub traffic_run : List TrafficEvent → Logins m → Option (Logins m)
  traffic_run [] l = some l
  traffic_run (e ∷ es) l = do l' ← traffic_step e l; traffic_run es l'
