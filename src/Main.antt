-- ===== src/Main.antt =====
-- The main function in core/main.cpp: the server is made, it accepts connections, and the
-- io_context runs. Only the message about the start is taken from the calls of the logger.
pub mod Run
use mydak_server.Base.{ℕ, List, [], ◌∷◌, ◌++◌, Bool, Option, none, some, Bytes, ◌>>=◌}
use mydak_server.Database.{Mariadb}
use mydak_server.Database.Setup.{Connector}
use mydak_server.Server.{Server}
use mydak_server.Server.Accept.{Acceptor, start_accepting_connections, accept_one}
use mydak_server.Server.Construction.{make_server}
use mydak_server.Server.Logins.{Logins}
use mydak_server.Connection.Traffic.{TrafficEvent, traffic_step}
use mydak_server.Parameters.{Processed, returns, exits, undefined}
use mydak_server.ParameterText.{Exit}
use mydak_server.Logger.{Console, SystemError, log_debug, exception_func}

-- "The server started!"
abbrev pub server_started : Bytes
server_started =
    84 ∷ 104 ∷ 101 ∷ 32 ∷ 115 ∷ 101 ∷ 114 ∷ 118 ∷ 101 ∷ 114 ∷ 32 ∷ 115 ∷ 116 ∷ 97 ∷ 114 ∷ 116 ∷ 101
    ∷ 100 ∷ 33 ∷ []

-- "The server shut down!"
abbrev pub server_shut_down : Bytes
server_shut_down =
    84 ∷ 104 ∷ 101 ∷ 32 ∷ 115 ∷ 101 ∷ 114 ∷ 118 ∷ 101 ∷ 114 ∷ 32 ∷ 115 ∷ 104 ∷ 117 ∷ 116 ∷ 32 ∷ 100
    ∷ 111 ∷ 119 ∷ 110 ∷ 33 ∷ []

-- What the io_context hands on: the end of an accept, with an error or without one, or an event of
-- the connections.
pub data IoEvent : Type 0 where
  accepts : Bool → IoEvent
  traffic : TrafficEvent → IoEvent

module _ (m : Mariadb) where
  pub record Program : Type 0 where
    pub acceptor : Acceptor
    pub logins : Logins m
    pub console : Console

  -- How `main` stands after some events: it has returned 0, an exception has left it, the command
  -- line has ended the program, or the io_context runs, where `none` is undefined behaviour.
  pub data Ran : Type 0 where
    returned : Console → Ran
    thrown : Ran
    exited : Exit → Ran
    runs : Option Program → Ran

  unfoldable pub io_step : IoEvent → Program → Option Program
  io_step (IoEvent.accepts error) p = some (record p { acceptor = accept_one error p.acceptor })
  io_step (IoEvent.traffic e) p = do l ← traffic_step m e p.logins; some (record p { logins = l })

  -- As long as a connection is accepted there is work to do, and `io.run` does not return.
  unfoldable pub io_run : List IoEvent → Program → Option Program
  io_run [] p = some p
  io_run (e ∷ es) p = do p' ← io_step e p; io_run es p'

  -- The server has been made.
  unfoldable pub serve : Bool → Server m → List IoEvent → Ran
  serve is_debug s es = Ran.runs (
      io_run es (record {
        acceptor =
            start_accepting_connections (record { accepting = none; spawned = []; made = 0 });
        logins = record { server = s; connections = [] };
        console = log_debug is_debug server_started [];
      }))

  -- The handler of a `system_error`, and what stands behind it.
  unfoldable pub shut_down : Bool → Bytes → SystemError → Ran
  shut_down is_debug name e = elim (exception_func e name []) [
    | none ↦ Ran.thrown
    | some console ↦ Ran.returned (log_debug is_debug server_shut_down console)
  ]

  -- `failure` is what the acceptor throws when it is opened, before the command line is read.
  module _ (make_address : Bytes → Bool) (connector : Connector m) where
    unfoldable pub construct : Bool → Processed (Option (Server m)) → List IoEvent → Ran
    unfolding serve
    construct is_debug (returns (some s)) es = serve is_debug s es
    construct is_debug (returns none) es = Ran.thrown
    construct is_debug (exits e) es = Ran.exited e
    construct is_debug undefined es = Ran.runs none

    unfoldable pub main :
        Bool → Bytes → Option SystemError → List Bytes → m.Tables → List IoEvent → Ran
    unfolding construct shut_down
    main is_debug name (some e) args tables es = shut_down is_debug name e
    main is_debug name none args tables es =
        construct is_debug (make_server make_address m connector args tables) es
