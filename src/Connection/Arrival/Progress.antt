-- ===== src/Connection/Arrival/Progress.antt =====
-- The frames of a sender reach the socket of the recipient, in core/main/connection.cpp and
-- `socket_coroutine` of core/main/server.cpp.
use mydak_server.Base.{
  ℕ, suc, ◌<◌, ◌≡◌, ◌⊎◌, Bool, false, List, [], ◌++◌, map, Option, some, Bytes, get_elem?,
}
use mydak_server.ClientIndex.{ClientIndex}
use mydak_server.Slot.{Slot}
use mydak_server.Client.{Client}
use mydak_server.Wire.{Endian}
use mydak_server.Database.{Mariadb}
use mydak_server.Server.Writer.{Stage, receiving}
use mydak_server.Connection.Arrival.{PassageEvent, Passage}
use mydak_server.Connection.Arrival.Moves.{IsAt, Passing, Moves, next_passage}

module _ (m : Mariadb) (e : Endian) (sender recipient : Bytes) (i : ClientIndex)
    (slot : Slot Client) (c : Client) (socket queue channel : ℕ) where
  abbrev Fits : Bool → List Bytes → Stage → Type 0
  Fits = IsAt m e sender recipient i slot c socket queue channel

  abbrev Kept : List Bytes → List (ℕ × Bytes) → ℕ → Passage m → Type 0
  Kept = Passing m e sender recipient i slot c socket queue channel

  abbrev Happens : List Bytes → List (ℕ × Bytes) → ℕ → PassageEvent → Passage m → Type 0
  Happens = Moves m e sender recipient i slot c socket queue channel

  abbrev step : PassageEvent → Passage m → Option (Passage m)
  step = next_passage m e sender recipient i slot c socket queue channel

  -- The coroutine waits for a signal, and the socket has been given the messages.
  abbrev pub Arrived : List Bytes → List (ℕ × Bytes) → Passage m → Type 0
  Arrived all sent p =
      (p.writer.stage ≡ receiving)
      × (p.sending ≡ false)
      × (p.stream ≡ [])
      × (get_elem? p.writer.server.queues queue ≡ some [])
      × (p.writer.sent ≡ sent ++ map (λ (x : Bytes). (socket, x)) all)

  -- Whatever an event that can happen leads to has one step fewer left.
  abbrev Goes : List Bytes → List (ℕ × Bytes) → ℕ → Option (Passage m) → Type 0
  Goes all sent steps r =
      (p : Passage m) → r ≡ some p → (n : ℕ) × (steps ≡ suc n) × Kept all sent n p

  -- Either something can happen, or everything has arrived.
  abbrev Advances : List Bytes → List (ℕ × Bytes) → ℕ → Passage m → Type 0
  Advances all sent n p =
      ((0 < n) × (event : PassageEvent) × (q : Passage m) × (step event p ≡ some q))
      ⊎ ((n ≡ 0) × Arrived all sent p)
