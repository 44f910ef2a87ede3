-- ===== src/Server/Registry.antt =====
-- The map of online clients against the slots, in core/main/server.cpp: logging in and leaving.
use mydak_server.Base.{
  ℕ, ◌+◌, ◌<◌, ◌≡◌, ◌≢◌, refl, ap, sym, ◌∙◌, ◌⊎◌, inl, inr, true, Bool-cases, List, ◌∷◌, Option,
  none, some, arith, if◌then◌else◌, word, length, Bytes, bytes_eq, bytes_eq_iff, bytes_eq_refl,
  find, assign, find-assign,
}
use mydak_server.Task.{done}
use mydak_server.ClientIndex.{ClientIndex, invalid_index, with_generation}
use mydak_server.Slot.{Slot}
use mydak_server.SlotVector.{SlotVector, slot_at, emplace_back}
use mydak_server.SlotVector.Vacancies.{IsValid, Placed, emplace_back-Placed}
use mydak_server.Client.{Client, make_client}
use mydak_server.Database.{Mariadb}
use mydak_server.Database.Operations.{Database}
use mydak_server.Database.Operations.Tables.{Documented}
use mydak_server.Database.Operations.Users.{Registered, add_user-Registered}
use mydak_server.Server.{Server, enter_client, add_client_to_db, admit_client, add_client}

-- The slot that a handle names holds a client of the handle's generation.
pub record IsLive (v : SlotVector Client) (i : ClientIndex) : Type 0 where
  pub slot : Slot Client
  pub client : Client
  pub present : slot_at v i.index ≡ some slot
  pub occupied : slot.object ≡ some client
  pub same_life : slot.generation ≡ i.generation

-- Every key in the map has a live client of its own, and the slots are in order.
pub record IsRegistry (v : SlotVector Client) (indices : List (Bytes × ClientIndex)) : Type 0 where
  pub slots : IsValid v
  pub online : (k : Bytes) (i : ClientIndex) → find k indices ≡ some i → IsLive v i
  pub apart :
      (j k : Bytes) (i i' : ClientIndex)
      → find j indices ≡ some i
      → find k indices ≡ some i'
      → i.index ≡ i'.index
      → j ≡ k

module _ (c : Client) (v w : SlotVector Client) (new : ClientIndex) (p : Placed c v w new) where
  -- A live client is elsewhere than a new one.
  pub Placed-elsewhere : (i : ClientIndex) → IsLive v i → new.index ≢ i.index
  Placed-elsewhere i l e =
      let at : slot_at v new.index ≡ some l.slot = ap (slot_at v) e ∙ l.present in
      ground (arith, p.was_vacant l.slot at, l.occupied)

  pub Placed-IsLive : (i : ClientIndex) → IsLive v i → IsLive w i
  Placed-IsLive i l = record {
    slot = l.slot;
    client = l.client;
    present = ground (arith, p.placed i.index, Placed-elsewhere i l, l.present);
    occupied = l.occupied;
    same_life = l.same_life;
  }

  pub Placed_here-IsLive :
      (i : ClientIndex) → i.index ≡ new.index → i.generation ≡ new.generation → IsLive w i
  Placed_here-IsLive i e g = record {
    slot = record { object = some c; generation = new.generation };
    client = c;
    present = ground (arith, p.placed i.index);
    occupied = refl;
    same_life = sym g;
  }

  module _ (k : Bytes) (i : ClientIndex) (indices indices' : List (Bytes × ClientIndex))
      (h : IsRegistry v indices) (e : i.index ≡ new.index) (g : i.generation ≡ new.generation)
      (found : (j : Bytes)
        → find j indices' ≡ (if bytes_eq k j then some i else find j indices)) where
    -- An entry is the newcomer's or an old one.
    origin :
        (j : Bytes) (a : ClientIndex)
        → find j indices' ≡ some a
        → ((k ≡ j) × (a.index ≡ new.index) × (a.generation ≡ new.generation))
          ⊎ (find j indices ≡ some a)
    origin j a f = elim (Bool-cases (bytes_eq k j)) [
      | inl same ↦ inl ((bytes_eq_iff k j).0 same, ground (arith, found j), ground (arith, found j))
      | inr other ↦ inr (ground (arith, found j))
    ]

    -- The registry after a login: the newcomer's slot is its own.
    Placed-IsRegistry : IsRegistry w indices'
    Placed-IsRegistry = record {
      slots = p.valid;
      online = λ j a f. elim (origin j a f) [
        | inl (_, at, life) ↦ Placed_here-IsLive a at life
        | inr old ↦ Placed-IsLive a (h.online j a old)
      ];
      apart = λ j j' a b fa fb same. elim (origin j a fa) [
        | inl (kj, at, _) ↦ elim (origin j' b fb) [
          | inl (kj', _, _) ↦ sym kj ∙ kj'
          | inr old ↦ absurd (Placed-elsewhere b (h.online j' b old) (sym at ∙ same))
        ]
        | inr old ↦ elim (origin j' b fb) [
          | inl (_, at, _) ↦ absurd (Placed-elsewhere a (h.online j a old) (sym at ∙ sym same))
          | inr old' ↦ h.apart j j' a b old old' same
        ]
      ];
    }

-- The map after both of its writes during a login.
pub find-login :
    (k : Bytes) (i : ClientIndex) (id : ℕ) (indices : List (Bytes × ClientIndex)) (j : Bytes)
    → find j (assign k i (assign k (with_generation invalid_index id) indices))
      ≡ (if bytes_eq k j then some i else find j indices)
find-login k i id indices j = ground (
  arith,
  find-assign k j i (assign k (with_generation invalid_index id) indices),
  find-assign k j (with_generation invalid_index id) indices,
)

module _ (m : Mariadb) where
  -- The registry of a server whose database is served.
  pub record IsServing (s : Server m) : Type 0 where
    pub registry : IsRegistry s.clients s.client_indices
    pub served : s.db.running ≡ true

  -- The server after a login.
  abbrev pub login_state :
      Bytes
      → ClientIndex
      → Option ℕ
      → Option ℕ
      → SlotVector Client
      → Database m
      → Server m
      → Server m
  login_state k i socket channel w d s = record {
    clients = w;
    client_indices =
        assign k i (assign k (with_generation invalid_index i.db_index) s.client_indices);
    queues = (make_client socket channel s.queues).1;
    writers = (channel, i.index) ∷ s.writers;
    db = d;
  }

module _ (m : Mariadb) (doc : Documented m) where
  -- What a login promises.
  pub record LoggedIn (k : Bytes) (i : ClientIndex) (s s' : Server m) : Type 0 where
    pub serving : IsServing m s'
    pub entered :
        (j : Bytes)
        → find j s'.client_indices ≡ (if bytes_eq k j then some i else find j s.client_indices)
    pub row : doc.user s'.db.tables k ≡ some i.db_index
    pub was_vacant : (t : Slot Client) → slot_at s.clients i.index ≡ some t → t.object ≡ none
    pub others : (j : ℕ) → j ≢ i.index → slot_at s'.clients j ≡ slot_at s.clients j
    pub same_row : (j : ℕ) → doc.user s.db.tables k ≡ some j → i.db_index ≡ j
    pub messages : (u : ℕ) → doc.stored s'.db.tables u ≡ doc.stored s.db.tables u

  -- The new client stands in its slot, with a queue and the channel of its connection.
  pub record Seated (socket channel : Option ℕ) (i : ClientIndex) (s s' : Server m) : Type 0 where
    pub here :
        slot_at s'.clients i.index
        ≡ some (record {
          object = some (make_client socket channel s.queues).0;
          generation = i.generation;
        })
    pub heap : s'.queues ≡ (make_client socket channel s.queues).1

  -- A login takes a row and a slot, whatever the map holds under other keys.
  pub add_client-Placed :
      (k : Bytes) (socket channel : Option ℕ) (s : Server m)
      → IsValid s.clients
      → s.db.running ≡ true
      → find k s.client_indices ≡ none
      → length s.clients.clients + 1 < word
      → (id : ℕ) × (d : Database m) × (w : SlotVector Client) × (new : ClientIndex) × (add_client m
            k socket channel s
          ≡ (
            done (record new { db_index = id }),
            login_state m k (record new { db_index = id }) socket channel w d s,
          ))
        × Registered m doc k id s.db d
        × (emplace_back (make_client socket channel s.queues).0 s.clients ≡ some (w, new))
        × Placed (make_client socket channel s.queues).0 s.clients w new
  unfolding add_client add_client_to_db enter_client admit_client
  add_client-Placed k socket channel s valid up unknown room =
      let (id, d, registered, r) = add_user-Registered m doc k s.db up in
      let (w, new, placed, p) =
        emplace_back-Placed (make_client socket channel s.queues).0 s.clients valid room in
      (id, d, w, new, ground (arith, registered, placed), r, placed, p)

  -- On a server whose map and slots agree and whose database is served, with fewer than 2^64 - 1
  -- slots, a login with a key that is not in the map returns a handle. Its slot was empty or
  -- missing, its row is the key's row in the database, the key is in the map under it, every other
  -- entry and slot is as before, and the map and the slots agree again. A row that the key had is
  -- kept, no stored message changes, and the slot holds the new client with its queue.
  pub add_client-LoggedIn :
      (k : Bytes) (socket channel : Option ℕ) (s : Server m)
      → IsServing m s
      → find k s.client_indices ≡ none
      → length s.clients.clients + 1 < word
      → (i : ClientIndex) × (s' : Server m) × (add_client m k socket channel s ≡ (done i, s'))
        × LoggedIn k i s s'
        × Seated socket channel i s s'
  add_client-LoggedIn k socket channel s h unknown room =
      let (id, d, w, new, added, r, placed, p) =
        add_client-Placed k socket channel s h.registry.slots h.served unknown room in
      let c : Client = (make_client socket channel s.queues).0 in
      let i : ClientIndex = record new { db_index = id } in
      let s' : Server m = login_state m k i socket channel w d s in
      (
        i,
        s',
        added,
        record {
          serving = record {
            registry =
                Placed-IsRegistry c s.clients w new p k i s.client_indices s'.client_indices
                  h.registry refl refl (find-login k i id s.client_indices);
            served = r.running;
          };
          entered = find-login k i id s.client_indices;
          row = ground (arith, r.users k, bytes_eq_refl k);
          was_vacant = p.was_vacant;
          others = λ j ne. ground (arith, p.placed j);
          same_row = r.same_row;
          messages = r.messages;
        },
        record { here = ground (arith, p.placed i.index); heap = refl },
      )
