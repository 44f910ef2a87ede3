-- ===== src/Connection/Traffic/Safety.antt =====
-- Every interleaving of logins, messages, writes and departures, in core/main/connection.cpp and
-- server.cpp.
use mydak_server.Base.{◌≡◌, List, [], ◌∷◌, some, Bytes}
use mydak_server.Database.{Mariadb}
use mydak_server.Database.Operations.Tables.{Documented}
use mydak_server.Server.Logins.{Logins}
use mydak_server.Connection.Traffic.{TrafficEvent, traffic_step}
use mydak_server.Connection.Traffic.Steps.{IsAllowed}

module _ (m : Mariadb) (doc : Documented m) (P : Bytes → Bytes → Type 0) where
  abbrev pub AreAllowed : List TrafficEvent → Logins m → Type 0
  AreAllowed [] l = Unit
  AreAllowed (e ∷ es) l =
      IsAllowed m doc P e l × ((l' : Logins m) → traffic_step m e l ≡ some l' → AreAllowed es l')
