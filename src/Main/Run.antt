-- ===== src/Main/Run.antt =====
-- The program of core/main.cpp from its command line on, through any events of the io_context.
use mydak_server.Base.{List, [], ◌∷◌, Bool}
use mydak_server.Server.{Server}
use mydak_server.Server.Logins.{Logins}
use mydak_server.Connection.Traffic.{TrafficEvent}
use mydak_server.Main.{IoEvent, accepts, traffic}

-- The ends of accepts among some events, and the events of connections.
abbrev pub accepts_of : List IoEvent → List Bool
accepts_of [] = []
accepts_of (accepts error ∷ es) = error ∷ accepts_of es
accepts_of (traffic e ∷ es) = accepts_of es

abbrev pub traffic_of : List IoEvent → List TrafficEvent
traffic_of [] = []
traffic_of (accepts error ∷ es) = traffic_of es
traffic_of (traffic e ∷ es) = e ∷ traffic_of es
