-- ===== src/Server/Departure.antt =====
-- Clients that leave, in core/main/server.cpp, and connections that end before they have logged in.
use mydak_server.Base.{
  List, ℕ, Option, ◌≡◌, ◌≢◌, none, some, arith, ◌==◌, if◌then◌else◌, get_elem?-modify_at,
  get_elem?_lt, Bytes, bytes_eq, bytes_eq_iff, find, erase, find-erase,
}
use mydak_server.Task.{done}
use mydak_server.ClientIndex.{ClientIndex, empty_index}
use mydak_server.Slot.{Slot, clear, is_empty}
use mydak_server.SlotVector.{SlotVector, slot_at, pop}
use mydak_server.SlotVector.Vacancies.{pop-IsValid}
use mydak_server.Client.{Client}
use mydak_server.Database.{Mariadb}
use mydak_server.Server.{Server, remove_client, get_client_index}
use mydak_server.Server.Registry.{IsLive, IsRegistry, IsServing}

module _ (v : SlotVector Client) (i : ℕ) where
  -- `pop` empties the slot that it names and leaves the others.
  pub slot_at-pop :
      (s : Slot Client) (j : ℕ)
      → slot_at v i ≡ some s
      → slot_at (pop i v) j ≡ (if i == j then some (record s { object = none }) else slot_at v j)
  unfolding pop clear
  slot_at-pop s j at =
      ground (arith, get_elem?_lt v.clients i s at, get_elem?-modify_at clear v.clients i j s at)

-- The client in a slot, if there is one.
abbrev pub object_of : Option (Slot Client) → Option Client
object_of none = none
object_of (some s) = s.object

abbrev pub occupant : SlotVector Client → ℕ → Option Client
occupant v j = object_of (slot_at v j)

-- A client that is live stays so when another is popped.
pub IsLive-pop :
    (v : SlotVector Client) (i a : ClientIndex)
    → IsLive v i
    → IsLive v a
    → i.index ≢ a.index
    → IsLive (pop i.index v) a
IsLive-pop v i a l o ne = record {
  slot = o.slot;
  client = o.client;
  present = ground (arith, slot_at-pop v i.index l.slot a.index l.present, o.present);
  occupied = o.occupied;
  same_life = o.same_life;
}

-- The registry after the departure of a client by its own handle.
pub departure-IsRegistry :
    (k : Bytes) (i : ClientIndex) (v : SlotVector Client) (indices : List (Bytes × ClientIndex))
    → IsRegistry v indices
    → find k indices ≡ some i
    → IsRegistry (pop i.index v) (erase k indices)
departure-IsRegistry k i v indices h e =
    let l = h.online k i e in
    record {
      slots = pop-IsValid i.index v l.slot l.client h.slots l.present l.occupied;
      online = λ j a f. IsLive-pop v i a l (h.online j a (kept j a f)) (away j a f);
      apart = λ j j' a b fa fb same. h.apart j j' a b (kept j a fa) (kept j' b fb) same;
    }
  where
    kept :
        (j : Bytes) (a : ClientIndex) → find j (erase k indices) ≡ some a → find j indices ≡ some a
    kept j a f = ground (arith, find-erase k j indices)

    away : (j : Bytes) (a : ClientIndex) → find j (erase k indices) ≡ some a → i.index ≢ a.index
    away j a f same =
        ground
          (arith, find-erase k j indices, h.apart k j i a e (kept j a f) same, bytes_eq_iff k j)

module _ (m : Mariadb) where
  -- What a departure promises.
  pub record Left (k : Bytes) (i : ClientIndex) (s s' : Server m) : Type 0 where
    pub serving : IsServing m s'
    pub entries :
        (j : Bytes)
        → find j s'.client_indices ≡ (if bytes_eq k j then none else find j s.client_indices)
    pub others : (j : ℕ) → j ≢ i.index → slot_at s'.clients j ≡ slot_at s.clients j
    pub emptied :
        (slot : Slot Client)
        → slot_at s.clients i.index ≡ some slot
        → slot_at s'.clients i.index ≡ some (record slot { object = none })

  -- On a server whose map and slots agree, removing a key that is in the map by the index of its
  -- own entry removes that entry and no other, empties its slot, changes no other slot, and the map
  -- and the slots agree again.
  pub remove_client-Left :
      (k : Bytes) (i : ClientIndex) (s : Server m)
      → IsServing m s
      → find k s.client_indices ≡ some i
      → Left k i s (remove_client m i.index k s)
  unfolding remove_client
  remove_client-Left k i s h e = record {
    serving = record {
      registry = departure-IsRegistry k i s.clients s.client_indices h.registry e;
      served = h.served;
    };
    entries = λ j. find-erase k j s.client_indices;
    others = λ j ne.
        let l = h.registry.online k i e in
        ground (arith, slot_at-pop s.clients i.index l.slot j l.present);
    emptied = λ slot at. ground (arith, slot_at-pop s.clients i.index slot i.index at);
  }

  -- A connection that leaves with a key of its own and somebody else's slot index, as one does whose
  -- first read fails (it has index 0), empties that slot and leaves the owner in the map. From then on a
  -- sender is told that the owner is offline with no row in the database.
  pub stranger_evicts :
      (k stranger : Bytes) (i : ClientIndex) (s : Server m)
      → IsServing m s
      → find k s.client_indices ≡ some i
      → stranger ≢ k
      → let s' = remove_client m i.index stranger s in
        (find k s'.client_indices ≡ some i) × (get_client_index m k s' ≡ (done empty_index, s'))
  unfolding remove_client get_client_index is_empty
  stranger_evicts k stranger i s h e other =
      let l = h.registry.online k i e in
      ground (
        arith,
        find-erase stranger k s.client_indices,
        bytes_eq_iff stranger k,
        slot_at-pop s.clients i.index l.slot i.index l.present,
      )
