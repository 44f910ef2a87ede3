-- ===== src/Connection/Lifetime.antt =====
-- The whole life of a connection of core/main/connection.cpp, from its key to its end.
use mydak_server.Base.{
  ℕ, suc, ◌+◌, ◌<◌, ◌≡◌, ◌≢◌, refl, ap, Option-cases, inl, inr, ◌∙◌, true, Option, none, some,
  arith, word, Bytes, bytes_eq, bytes_eq_iff, bytes_eq_refl, length, ◌++◌, find, find-erase,
  if◌then◌else◌,
}
use mydak_server.Task.{Outcome, done, threw, hung, undefined}
use mydak_server.ClientIndex.{ClientIndex}
use mydak_server.Proto.{e2e_keys_raw_l}
use mydak_server.Wire.{Endian}
use mydak_server.Wire.Frame.{async_read-append}
use mydak_server.Database.{Mariadb}
use mydak_server.Database.Operations.Tables.{Documented}
use mydak_server.Server.{Server, send_delayed_messages, remove_client}
use mydak_server.Server.Registry.{IsRegistry, IsServing, add_client-LoggedIn}
use mydak_server.Server.Departure.{departure-IsRegistry, slot_at-pop, occupant}
use mydak_server.Slot.{Slot}
use mydak_server.SlotVector.{slot_at, pop}
use mydak_server.Client.{Client}
use mydak_server.Server.Bystanders.{Keeps, Keeps-refl, send_delayed_messages-Keeps}
use mydak_server.Connection.{continue_with, end_connection, run_session, login_with, start}
use mydak_server.Connection.Session.{receive_loop-total}
use mydak_server.Connection.Bystanders.{receive_loop-Keeps}

module _ (m : Mariadb) (async_send : ℕ → Outcome (Unit {0})) where
  -- What becomes of the map and the slots: a connection that has ended leaves the map as it was and
  -- the same clients in the slots, and one that hangs stays in the map.
  abbrev pub MapAfter : Bytes → Outcome (Unit {0}) → Server m → Server m → Type 0
  MapAfter k (done _) s s' =
      ((j : Bytes) → find j s'.client_indices ≡ find j s.client_indices)
      × ((j : ℕ) → occupant s'.clients j ≡ occupant s.clients j)
  MapAfter k _ s s' =
      (i : ClientIndex) × ((j : Bytes)
        → find j s'.client_indices ≡ (if bytes_eq k j then some i else find j s.client_indices))

  moved :
      (s t : Server m)
      → Keeps m s t
      → IsRegistry s.clients s.client_indices
      → IsRegistry t.clients t.client_indices
  moved s t h reg = rw (h.slots, h.keys) reg

  finish :
      (k : Bytes) (i : ClientIndex) (s t : Server m) (x : Outcome (Unit {0}) × Server m)
      → find k s.client_indices ≡ none
      → IsRegistry t.clients t.client_indices
      → ((j : Bytes)
          → find j t.client_indices ≡ (if bytes_eq k j then some i else find j s.client_indices))
      → Keeps m t x.1
      → ((a : Slot Client) → slot_at s.clients i.index ≡ some a → a.object ≡ none)
      → ((j : ℕ) → j ≢ i.index → slot_at t.clients j ≡ slot_at s.clients j)
      → (r : Outcome (Unit {0})) × (s' : Server m) × (continue_with m async_send
            (λ u. some (done tt, end_connection m async_send i k u))
            x
          ≡ some (r, s'))
        × IsRegistry s'.clients s'.client_indices
        × MapAfter k r s s'
  unfolding end_connection remove_client
  finish k i s t (done _, u) unknown reg entered h vacant others =
      let here : find k u.client_indices ≡ some i =
        ap (find k) h.keys ∙ entered k ∙ ground (arith, bytes_eq_refl k) in
      (
        done tt,
        end_connection m async_send i k u,
        refl,
        departure-IsRegistry k i u.clients u.client_indices (moved t u h reg) here,
        (
          λ j. find-erase k j u.client_indices ∙ left u h.keys j,
          λ j. same_occupant u h.slots here j,
        ),
      )
    where
      left :
          (v : Server m)
          → v.client_indices ≡ t.client_indices
          → (j : Bytes)
          → (if bytes_eq k j then none else find j v.client_indices) ≡ find j s.client_indices
      left v same j = rw same (ground (arith, entered j, bytes_eq_iff k j))

      same_occupant :
          (v : Server m)
          → v.clients ≡ t.clients
          → find k v.client_indices ≡ some i
          → (j : ℕ) → occupant (pop i.index v.clients) j ≡ occupant s.clients j
      same_occupant v same here j =
          let l = reg.online k i (entered k ∙ ground (arith, bytes_eq_refl k)) in
          rw same (elim (Option-cases (slot_at s.clients i.index)) [
            | inl missing ↦
                ground (arith, slot_at-pop t.clients i.index l.slot j l.present, others j)
            | inr (a, at) ↦
                let empty : a.object ≡ none = vacant a at in
                ground (arith, slot_at-pop t.clients i.index l.slot j l.present, others j)
          ])
  finish k i s t (threw, u) unknown reg entered h vacant others =
      (threw, u, refl, moved t u h reg, (i, λ j. ap (find j) h.keys ∙ entered j))
  finish k i s t (hung, u) unknown reg entered h vacant others =
      (hung, u, refl, moved t u h reg, (i, λ j. ap (find j) h.keys ∙ entered j))
  finish k i s t (undefined, u) unknown reg entered h vacant others =
      (undefined, u, refl, moved t u h reg, (i, λ j. ap (find j) h.keys ∙ entered j))

  -- On a server whose map and slots agree and whose database is served, with fewer than 2^64 - 1
  -- slots, take a connection whose address can be read and whose peer sends a key of 32 bytes that
  -- is not in the map and then any bytes, until it closes. The coroutine ends, throws, hangs or is
  -- undefined, in each case the map and the slots agree again, and if it ends the map is as it was
  -- before the login and each slot holds the client that it held, or none if it held none; if not,
  -- the key stays in it under some handle and all else in it is as before.
  pub start-IsRegistry :
      (doc : Documented m) (e : Endian) (key rest : Bytes) (socket channel : Option ℕ)
      (s : Server m)
      → IsServing m s
      → length key ≡ e2e_keys_raw_l
      → find key s.client_indices ≡ none
      → length s.clients.clients + 1 < word
      → (r : Outcome (Unit {0})) × (s' : Server m) × (start m async_send e
            (key ++ rest)
            true
            socket
            channel
            s
          ≡ some (r, s'))
        × IsRegistry s'.clients s'.client_indices
        × MapAfter key r s s'
  unfolding start run_session login_with
  start-IsRegistry doc e key rest socket channel s h size unknown room =
      let (i, t, added, l, _) = add_client-LoggedIn m doc key socket channel s h unknown room in
      let t' = (send_delayed_messages m async_send i.index i.generation i.db_index t).1 in
      let delayed =
        send_delayed_messages-Keeps m async_send i.index i.generation i.db_index t t
          (Keeps-refl m t) in
      let (x, ran) =
        receive_loop-total m async_send (suc (length rest)) e key rest t' (omega arith) in
      let kept =
        receive_loop-Keeps m async_send (suc (length rest)) e key rest t t' x delayed ran in
      let (r, s', ended, reg, map_after) =
        finish key i s t x unknown l.serving.registry l.entered kept l.was_vacant l.others in
      (
        r,
        s',
        rw
            (
              async_read-append key rest e2e_keys_raw_l size,
              start,
              added,
              login_with,
              run_session,
              ran,
            )
            ended,
        reg,
        map_after,
      )
