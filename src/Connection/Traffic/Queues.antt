-- ===== src/Connection/Traffic/Queues.antt =====
-- The queues of the clients in the slots of core/main/server.cpp, each with a queue of its own.
use mydak_server.Base.{
  ℕ, ◌+◌, ◌<◌, ◌≡◌, ◌≢◌, Option, none, some, arith, ◌==◌, if◌then◌else◌, get_elem?-modify,
}
use mydak_server.ClientIndex.{ClientIndex}
use mydak_server.Slot.{Slot, clear}
use mydak_server.SlotVector.{SlotVector, slot_at, pop}
use mydak_server.SlotVector.Vacancies.{Placed}
use mydak_server.Client.{Client}

abbrev queue_in : Option Client → Option ℕ
queue_in none = none
queue_in (some c) = c.client_data.messages

abbrev queue_of : Option (Slot Client) → Option ℕ
queue_of none = none
queue_of (some s) = queue_in s.object

-- The queue of the client in a slot.
abbrev pub queue_at : SlotVector Client → ℕ → Option ℕ
queue_at v j = queue_of (slot_at v j)

-- No two slots share a queue, and the queues exist.
pub record HasOwnQueues (v : SlotVector Client) (n : ℕ) : Type 0 where
  pub bounded : (j q : ℕ) → queue_at v j ≡ some q → q < n
  pub own : (j j' q : ℕ) → queue_at v j ≡ some q → queue_at v j' ≡ some q → j ≡ j'

pub queue_at-Placed :
    (c : Client) (v w : SlotVector Client) (new : ClientIndex) (j : ℕ)
    → Placed c v w new
    → queue_at w j ≡ (if new.index == j then c.client_data.messages else queue_at v j)
queue_at-Placed c v w new j p = ground (arith, p.placed j)

pub Placed-HasOwnQueues :
    (c : Client) (v w : SlotVector Client) (new : ClientIndex) (n : ℕ)
    → Placed c v w new
    → c.client_data.messages ≡ some n
    → HasOwnQueues v n
    → HasOwnQueues w (n + 1)
Placed-HasOwnQueues c v w new n p fresh h = record {
  bounded = λ j q e. ground (arith, queue_at-Placed c v w new j p, h.bounded j q);
  own = λ j j' q e e'. ground (
    arith,
    queue_at-Placed c v w new j p,
    queue_at-Placed c v w new j' p,
    h.own j j' q,
    h.bounded j q,
    h.bounded j' q,
  );
}

-- A pop takes the queue of its slot away, and no other.
pub queue_at-pop : (i j : ℕ) (v : SlotVector Client) → i ≢ j → queue_at (pop i v) j ≡ queue_at v j
unfolding pop
queue_at-pop i j v other = ground (arith, get_elem?-modify clear v.clients i j)

queue_at-pop_inv :
    (i j q : ℕ) (v : SlotVector Client) → queue_at (pop i v) j ≡ some q → queue_at v j ≡ some q
unfolding pop clear
queue_at-pop_inv i j q v e = ground (arith, get_elem?-modify clear v.clients i j)

pub pop-HasOwnQueues :
    (i n : ℕ) (v : SlotVector Client) → HasOwnQueues v n → HasOwnQueues (pop i v) n
pop-HasOwnQueues i n v h = record {
  bounded = λ j q e. h.bounded j q (queue_at-pop_inv i j q v e);
  own = λ j j' q e e'. h.own j j' q (queue_at-pop_inv i j q v e) (queue_at-pop_inv i j' q v e');
}
