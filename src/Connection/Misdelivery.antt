-- ===== src/Connection/Misdelivery.antt =====
-- A client that has lost its slot to a peer that never logged in, and the next login, in
-- core/main/connection.cpp and server.cpp.
use mydak_server.Base.{
  Bool, true, ℕ, ◌+◌, ◌<◌, ◌≡◌, ◌≢◌, refl, ap, sym, ◌∙◌, List, [], ◌∷◌, ◌++◌, Option, none, some,
  arith, Bytes, bytes_eq_iff, length, length-modify, get_elem?_lt, Option-cases, inl, inr, word,
  find, find-erase, modify, get_elem?, get_elem?-modify_at,
}
use mydak_server.Task.{Outcome, done}
use mydak_server.ClientIndex.{ClientIndex, invalid_index, with_generation}
use mydak_server.Slot.{clear}
use mydak_server.SlotVector.{SlotVector, slot_at, emplace_back, reuse, pop}
use mydak_server.SlotVector.Vacancies.{IsValid, pop-IsValid}
use mydak_server.Wire.{Endian}
use mydak_server.Proto.{e2e_keys_raw_l}
use mydak_server.Client.{make_client}
use mydak_server.Database.{Mariadb}
use mydak_server.Database.Operations.Tables.{Documented}
use mydak_server.Server.{Server, add_client, remove_client}
use mydak_server.Server.Registry.{IsServing, find-login, login_state, add_client-Placed}
use mydak_server.Connection.{partial_key, forward, start}
use mydak_server.Connection.Endings.{start_short}
use mydak_server.Connection.Forward.{after_send, forward_present}
use mydak_server.Connection.Return.{make_client-IsReady, new_queue}

-- The next object takes the vacancy at the front of the queue.
emplace_back-front :
    {T : Type 0} (x : T) (v w : SlotVector T) (i : ℕ) (rest : List ℕ) (new : ClientIndex)
    → v.empty_slots ≡ i ∷ rest
    → emplace_back x v ≡ some (w, new)
    → new.index ≡ i
unfolding emplace_back reuse with_generation
emplace_back-front x v w i rest new e placed = elim (Option-cases (slot_at v i)) [
  | inl missing ↦ absurd (ground arith)
  | inr (slot, at) ↦ ground arith
]

module _ (m : Mariadb) (k : Bytes) (i : ClientIndex) where
  -- The key is in the map under a handle whose slot is the only vacancy.
  record IsVacated (s : Server m) : Type 0 where
    valid : IsValid s.clients
    served : s.db.running ≡ true
    entry : find k s.client_indices ≡ some i
    vacancy : s.clients.empty_slots ≡ i.index ∷ []

  remove_client-IsVacated :
      (stranger : Bytes) (s : Server m)
      → IsServing m s
      → find k s.client_indices ≡ some i
      → s.clients.empty_slots ≡ []
      → stranger ≢ k
      → IsVacated (remove_client m i.index stranger s)
  unfolding remove_client pop
  remove_client-IsVacated stranger s h e full other =
      let l = h.registry.online k i e in
      let below = get_elem?_lt s.clients.clients i.index l.slot l.present in
      record {
        valid = pop-IsValid i.index s.clients l.slot l.client h.registry.slots l.present l.occupied;
        served = h.served;
        entry = ground (arith, find-erase stranger k s.client_indices, bytes_eq_iff stranger k);
        vacancy = ground (arith, full);
      }

  remove_client-offline :
      (stranger j : Bytes) (s : Server m)
      → find j s.client_indices ≡ none
      → (find j (remove_client m i.index stranger s).client_indices ≡ none)
        × (length (remove_client m i.index stranger s).clients.clients ≡ length s.clients.clients)
  unfolding remove_client pop
  remove_client-offline stranger j s offline = (
    ground (arith, find-erase stranger j s.client_indices),
    ground (arith, length-modify clear s.clients.clients i.index),
  )

  module _ (doc : Documented m) (async_send : ℕ → Outcome (Unit {0})) where
    -- What the login of `j` takes over from `k`.
    abbrev pub Inherited :
        (j message : Bytes) (tries channel : ℕ) (socket : Option ℕ) (s : Server m) → Type 0
    Inherited j message tries channel socket s =
        (i' : ClientIndex) × (entered queued : Server m) × (add_client m j socket (some channel) s
          ≡ (done i', entered))
        × (find j entered.client_indices ≡ some i')
        × (slot_at entered.clients i'.index
            ≡ some (record {
              object = some (make_client socket (some channel) s.queues).0;
              generation = i'.generation;
            }))
        × (forward m async_send tries k message entered ≡ (done tt, queued))
        × (get_elem? queued.queues (length s.queues) ≡ some (message ∷ []))

    inherits :
        (j message : Bytes) (tries channel : ℕ) (socket : Option ℕ) (s : Server m)
        → IsVacated s
        → find j s.client_indices ≡ none
        → i.index ≢ invalid_index
        → length s.clients.clients + 1 < word
        → async_send channel ≡ done tt
        → Inherited j message tries channel socket s
    inherits j message tries channel socket s h offline inside room takes =
        let (id, d, w, new, added, r, placed, p) =
          add_client-Placed m doc j socket (some channel) s h.valid h.served offline room in
        let c = (make_client socket (some channel) s.queues).0 in
        let i' : ClientIndex = record new { db_index = id } in
        let t : Server m = login_state m j i' socket (some channel) w d s in
        let there : new.index ≡ i.index =
          emplace_back-front c s.clients w i.index [] new h.vacancy placed in
        let other : j ≢ k = λ same. ground (arith, h.entry) in
        let mine : find j t.client_indices ≡ some i' =
          ground (arith, find-login j i' id s.client_indices j, bytes_eq_iff j j) in
        let old : find k t.client_indices ≡ some i =
          ground (arith, find-login j i' id s.client_indices k, bytes_eq_iff j k, h.entry) in
        let here : slot_at w new.index
            ≡ some (record { object = some c; generation = new.generation }) =
          ground (arith, p.placed new.index) in
        let u : Server m = record t {
          queues = modify (λ q. q ++ message ∷ []) t.queues (length s.queues);
        } in
        let fresh : get_elem? t.queues (length s.queues) ≡ some [] =
          new_queue socket (some channel) s.queues in
        (
          i',
          t,
          u,
          added,
          mine,
          here,
          forward_present m async_send tries k message i t _ c (length s.queues) channel old inside
                (ap (slot_at w) (sym there) ∙ here) refl
                (make_client-IsReady socket channel s.queues)
              ∙ ap (λ r. (after_send r, u)) takes,
          ground (
            arith,
            get_elem?-modify_at (λ q. q ++ message ∷ []) t.queues (length s.queues)
                (length s.queues) [] fresh,
          ),
        )

    -- On a server whose map and slots agree, whose database is served and which has no vacancies
    -- and fewer than 2^64 - 1 slots, take a key in the map at index 0. A peer that sends fewer than
    -- 32 bytes, which padded with zeros are not that key, ends its connection. Then a second key
    -- that is offline logs in with a channel that takes each signal, and a message for the first
    -- key is sent: each step completes, and the message stands alone in the queue of the new client
    -- of the second key.
    pub evicted_key_misdelivers :
        (e : Endian) (stream j message : Bytes) (connected : Bool) (tries channel : ℕ)
        (socket socket' channel' : Option ℕ) (s : Server m)
        → IsServing m s
        → find k s.client_indices ≡ some i
        → i.index ≡ 0
        → s.clients.empty_slots ≡ []
        → length s.clients.clients + 1 < word
        → length stream < e2e_keys_raw_l
        → partial_key stream ≢ k
        → find j s.client_indices ≡ none
        → async_send channel ≡ done tt
        → (evicted : Server m) × (start m async_send e stream connected socket' channel' s
            ≡ some (done tt, evicted))
          × Inherited j message tries channel socket evicted
    evicted_key_misdelivers e stream j message connected tries channel socket socket' channel' s h
          entry first full room short other offline takes =
        let stranger = partial_key stream in
        let evicted = remove_client m i.index stranger s in
        let (off, same) = remove_client-offline stranger j s offline in
        (
          evicted,
          start_short m async_send e stream connected socket' channel' s short
              ∙ ap (λ n. some (done tt, remove_client m n stranger s)) (sym first),
          inherits j message tries channel socket evicted
              (remove_client-IsVacated stranger s h entry full other) off (omega arith)
              (omega arith) takes,
        )
