-- ===== src/Connection/Endings.antt =====
-- How connections of core/main/connection.cpp end whose client has not logged in: before the login,
-- or because its key is online already.
use mathlib.Core.Path.{subst}
use mydak_server.Base.{
  ℕ, ◌<◌, ◌≡◌, ◌≢◌, ap, sym, ◌∙◌, Bool, Option, none, some, arith, word, Bytes, bytes_eq_refl,
  length, find, find-erase,
}
use mydak_server.Task.{Outcome, done}
use mydak_server.ClientIndex.{ClientIndex, invalid_index, with_db_index, empty_index, unset}
use mydak_server.SlotVector.{pop}
use mydak_server.Wire.{Endian, async_read}
use mydak_server.Proto.{e2e_keys_raw_l}
use mydak_server.Database.{Mariadb}
use mydak_server.Server.{Server, add_client, remove_client, get_client_index}
use mydak_server.Server.Registry.{IsLive, IsServing}
use mydak_server.Server.Departure.{stranger_evicts}
use mydak_server.Connection.{partial_key, end_connection, start}

module _ (m : Mariadb) (async_send : ℕ → Outcome (Unit {0})) where
  pub start_short :
      (e : Endian) (stream : Bytes) (connected : Bool) (socket channel : Option ℕ) (s : Server m)
      → length stream < e2e_keys_raw_l
      → start m async_send e stream connected socket channel s
        ≡ some (done tt, remove_client m 0 (partial_key stream) s)
  unfolding start async_read end_connection unset
  start_short e stream connected socket channel s short = ground arith

  -- On a server whose map and slots agree, with a key in the map at index 0: a peer that sends
  -- fewer than 32 bytes, which padded with zeros are not that key, ends its connection and leaves
  -- the key in the map, and from then on a lookup of the key returns the empty index, neither
  -- online nor with a row.
  pub short_key_evicts :
      (e : Endian) (stream k : Bytes) (connected : Bool) (socket channel : Option ℕ)
      (i : ClientIndex) (s : Server m)
      → IsServing m s
      → find k s.client_indices ≡ some i
      → i.index ≡ 0
      → length stream < e2e_keys_raw_l
      → partial_key stream ≢ k
      → (s' : Server m) × (start m async_send e stream connected socket channel s
          ≡ some (done tt, s'))
        × (find k s'.client_indices ≡ some i)
        × (get_client_index m k s' ≡ (done empty_index, s'))
  short_key_evicts e stream k connected socket channel i s h entry first short other =
      let (stays, lost) = stranger_evicts m k (partial_key stream) i s h entry other in
      (
        remove_client m i.index (partial_key stream) s,
        start_short e stream connected socket channel s short
            ∙ ap (λ j. some (done tt, remove_client m j (partial_key stream) s)) (sym first),
        stays,
        lost,
      )

  -- On a server whose map and slots agree, with fewer than 2^64 slots: a login with a key that is
  -- in the map returns the empty index and changes nothing, and when that second connection ends by
  -- the empty index, the key is no longer in the map although the first client is live in its slot
  -- still.
  pub second_connection_unregisters :
      (k : Bytes) (socket channel : Option ℕ) (i : ClientIndex) (s : Server m)
      → IsServing m s
      → find k s.client_indices ≡ some i
      → length s.clients.clients < word
      → let s' = end_connection m async_send empty_index k s in
        (add_client m k socket channel s ≡ (done empty_index, s))
        × (find k s'.client_indices ≡ none)
        × IsLive s'.clients i
  unfolding add_client end_connection remove_client empty_index with_db_index pop
  second_connection_unregisters k socket channel i s h entry room =
      let l = h.registry.online k i entry in
      let same : pop invalid_index s.clients ≡ s.clients = ground arith in
      (
        ground arith,
        ground (arith, find-erase k k s.client_indices, bytes_eq_refl k),
        subst (λ v. IsLive v i) (sym same) l,
      )
