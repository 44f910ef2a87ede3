-- ===== src/Tests/Lives.antt =====
-- Logins that interleave, and the whole life of a connection, at concrete inputs.
use mydak_server.Base.{
  ◌++◌, ℕ, zero, suc, ◌≡◌, ◌≢◌, refl, List, [], ◌∷◌, true, false, some, none, arith, Bytes, find,
  get_elem?,
}
use mydak_server.Task.{Outcome}
use mydak_server.ClientIndex.{ClientIndex}
use mydak_server.SlotVector.{no_slots}
use mydak_server.SlotVector.Vacancies.{no_slots-IsValid}
use mydak_server.Wire.{Endian, queue_message}
use mydak_server.Server.Writer.{receiving}
use mydak_server.Connection.Arrival.{PassageEvent, reads, signals, completes, Passage, frames_to}
use mydak_server.Server.{Server}
use mydak_server.Server.Registry.{IsLive, IsRegistry}
use mydak_server.Server.Logins.{asking, online, connects, answered, ends, Logins, login_run}
use mydak_server.Server.Logins.Orderly.{IsOrderly}
use mydak_server.Server.Logins.Safety.{login_run-IsOrderly}
use mydak_server.Server.Logins.Race.{login_race}
use mydak_server.Connection.{start}
use mydak_server.Connection.Lifetime.{MapAfter, start-IsRegistry}
use mydak_server.Tests.Memory.{memory, memory-Documented, no_rows}
use mydak_server.Tests.Fixtures.{
  hello, alice, bob, one_online, one_online-IsServing, sends, bob_offline,
}

abbrev pub nobody : Server memory
nobody = record {
  clients = no_slots;
  client_indices = [];
  queues = [];
  writers = [];
  db = record { running = true; connected = true; tables = no_rows };
}

-- Two connections with Alice's key wait for her row.
abbrev pub two_asking : Logins memory
two_asking = record {
  server = nobody;
  connections = asking alice (some 5) (some 5) ∷ asking alice (some 6) (some 6) ∷ [];
}

pub not_online :
    (c : ℕ) (k : Bytes) (i : ClientIndex) → get_elem? two_asking.connections c ≢ some (online k i)
not_online zero k i e = cc
not_online (suc zero) k i e = cc
not_online (suc (suc c)) k i e = cc

pub two_asking-IsOrderly : IsOrderly memory two_asking
unfolding find
two_asking-IsOrderly = record {
  slots = no_slots-IsValid;
  live = λ c k i e _. absurd (not_online c k i e);
  apart = λ c c' k k' i i' e _ _ _. absurd (not_online c k i e);
  listed = λ k i e. cc;
}

login_run-IsOrderly_example :
    (l : Logins memory) × (login_run memory
        (answered 0 1 ∷ connects bob (some 7) (some 7) ∷ ends 0 ∷ [])
        two_asking
      ≡ some l)
    × IsOrderly memory l
unfolding no_slots
login_run-IsOrderly_example =
    login_run-IsOrderly memory (answered 0 1 ∷ connects bob (some 7) (some 7) ∷ ends 0 ∷ [])
      two_asking two_asking-IsOrderly (omega arith)

login_race_example :
    (i i' : ClientIndex) × (l : Logins memory) × (login_run memory
        (answered 0 1 ∷ answered 1 1 ∷ ends 0 ∷ [])
        two_asking
      ≡ some l)
    × (get_elem? l.connections 1 ≡ some (online alice i'))
    × IsLive l.server.clients i'
    × (find alice l.server.client_indices ≡ none)
unfolding no_slots
login_race_example =
    login_race memory 0 1 1 1 alice (some 5) (some 5) (some 6) (some 6) two_asking
      two_asking-IsOrderly (omega arith) (omega arith) refl refl

-- Bob logs in, and his frame has a wrong first byte.
start-IsRegistry_example :
    (r : Outcome (Unit {0})) × (s : Server memory) × (start memory sends Endian.little
        (bob ++ 7 ∷ 7 ∷ [])
        true
        (some 6)
        (some 6)
        one_online
      ≡ some (r, s))
    × IsRegistry s.clients s.client_indices
    × MapAfter memory sends bob r one_online s
start-IsRegistry_example =
    start-IsRegistry memory sends memory-Documented Endian.little bob (7 ∷ 7 ∷ []) (some 6) (some 6)
      one_online one_online-IsServing refl bob_offline (omega arith)

-- Bob has sent two frames to Alice, whose queue is empty.
abbrev two_frames : Passage memory
two_frames = record {
  writer = record { server = one_online; stage = receiving; sent = [] };
  stream = frames_to alice (hello ∷ hello ∷ []);
  sending = false;
}

-- The second frame is read while the first message is written.
abbrev both_pass : List PassageEvent
both_pass = reads ∷ signals ∷ reads ∷ completes ∷ completes ∷ signals ∷ []

abbrev passed : Passage memory
passed = record {
  writer = record {
    server = one_online;
    stage = receiving;
    sent =
        (5, queue_message Endian.little bob hello)
        ∷ (5, queue_message Endian.little bob hello)
        ∷ [];
  };
  stream = [];
  sending = false;
}
