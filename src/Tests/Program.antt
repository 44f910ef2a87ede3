-- ===== src/Tests/Program.antt =====
-- The whole program at concrete inputs.
use mydak_server.Base.{List, [], ◌∷◌, true, false, some, Bytes}
use mydak_server.Server.Logins.{connects, answered}
use mydak_server.Connection.Traffic.{received, registers, sends}
use mydak_server.Main.{IoEvent, accepts, traffic}
use mydak_server.Tests.Fixtures.{alice, hello}

-- "main"
abbrev main_name : Bytes
main_name = 109 ∷ 97 ∷ 105 ∷ 110 ∷ []

-- Alice connects and logs in, Bob's connection fails, and Alice is sent a message.
abbrev io_events : List IoEvent
io_events =
    accepts false
    ∷ traffic (registers (connects alice (some 5) (some 5)))
    ∷ accepts true
    ∷ traffic (registers (answered 0 1))
    ∷ traffic (sends received alice hello)
    ∷ []
