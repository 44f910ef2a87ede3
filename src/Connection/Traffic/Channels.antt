-- ===== src/Connection/Traffic/Channels.antt =====
-- The channels of the clients of core/main/server.cpp: a connection makes its channel before it logs
-- in, so that no client has a null pointer for one.
use mydak_server.Base.{
  ℕ, ◌≡◌, ◌≢◌, inl, inr, Bool-cases, List, Option, none, some, arith, Bytes, ◌==◌, if◌then◌else◌,
  length, modify, get_elem?, get_elem?-append_one, get_elem?-modify, get_elem?-modify_at,
}
use mydak_server.ClientIndex.{ClientIndex, empty_index}
use mydak_server.Slot.{Slot, clear}
use mydak_server.SlotVector.{SlotVector, slot_at, pop}
use mydak_server.Client.{Client}
use mydak_server.Database.{Mariadb}
use mydak_server.Server.{is_known}
use mydak_server.Server.Logins.{Phase, asking, online, gone, Logins, begin_login}
use mydak_server.Server.Logins.Finish.{Finished}

-- Each client in a slot has a channel, and so has each connection that waits for its row.
pub record HasChannels (v : SlotVector Client) (connections : List Phase) : Type 0 where
  pub occupied :
      (j : ℕ) (slot : Slot Client) (c : Client)
      → slot_at v j ≡ some slot
      → slot.object ≡ some c
      → c.client_data.signal_channel ≢ none
  pub waiting :
      (c : ℕ) (k : Bytes) (socket : Option ℕ)
      → get_elem? connections c ≢ some (asking k socket none)

module _ (m : Mariadb) where
  pub begin_login-HasChannels :
      (k : Bytes) (socket channel : Option ℕ) (l : Logins m)
      → channel ≢ none
      → HasChannels l.server.clients l.connections
      → HasChannels l.server.clients (begin_login m k socket channel l).connections
  unfolding begin_login
  begin_login-HasChannels k socket channel l real h = record {
    occupied = h.occupied;
    waiting = λ c k' s e. elim (Bool-cases (c == length l.connections)) [
      | inr old ↦ h.waiting c k' s (ground (arith, get_elem?-append_one l.connections p c))
      | inl new ↦ elim (Bool-cases (is_known m k l.server)) [
        | inl known ↦ ground (arith, get_elem?-append_one l.connections p c)
        | inr unknown ↦ real (ground (arith, get_elem?-append_one l.connections p c))
      ]
    ];
  }
    where
      p : Phase
      p = if is_known m k l.server then online k empty_index else asking k socket channel

  pub Finished-HasChannels :
      (c : ℕ) (k : Bytes) (socket channel : Option ℕ) (i : ClientIndex) (l l' : Logins m)
      → HasChannels l.server.clients l.connections
      → get_elem? l.connections c ≡ some (asking k socket channel)
      → Finished m c k i l l'
      → HasChannels l'.server.clients l'.connections
  Finished-HasChannels c k socket channel i l l' h at f = record {
    occupied = λ j slot x there full. elim (Bool-cases (f.new.index == j)) [
      | inr other ↦ h.occupied j slot x (ground (arith, f.placed.placed j)) full
      | inl here ↦ λ missing.
          h.waiting c k socket
            (ground (arith, at, f.own_channel socket channel at, f.placed.placed j))
    ];
    waiting = λ c' k' s e. h.waiting c' k' s (
        ground (arith, f.connected, get_elem?-modify_at (λ _. online k i) l.connections c c' _ at));
  }

  pub end_login-HasChannels :
      (c : ℕ) (i : ℕ) (l : Logins m)
      → HasChannels l.server.clients l.connections
      → HasChannels (pop i l.server.clients) (modify (λ _. gone) l.connections c)
  unfolding pop clear
  end_login-HasChannels c i l h = record {
    occupied = λ j slot x there full.
        h.occupied j slot x (ground (arith, get_elem?-modify clear l.server.clients.clients i j))
          full;
    waiting = λ c' k s e.
        h.waiting c' k s (ground (arith, get_elem?-modify (λ _. gone) l.connections c c'));
  }
