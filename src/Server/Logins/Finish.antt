-- ===== src/Server/Logins/Finish.antt =====
-- A connection whose row has arrived, in core/main/server.cpp.
use mydak_server.Base.{
  [], ◌∷◌, ◌++◌, ℕ, ◌+◌, ◌≤◌, ◌<◌, ◌≡◌, ◌≢◌, refl, ap, sym, ◌∙◌, inl, inr, ◌⊎◌, Bool-cases, Option,
  some, arith, if◌then◌else◌, word, length, modify, get_elem?, get_elem?_lt, Bytes, bytes_eq,
  bytes_eq_iff, find, assign,
}
use mydak_server.ClientIndex.{ClientIndex, invalid_index, with_generation}
use mydak_server.SlotVector.{SlotVector, slot_at}
use mydak_server.SlotVector.Vacancies.{Placed, emplace_back-Placed}
use mydak_server.Client.{Client, make_queue, make_client}
use mydak_server.Database.{Mariadb}
use mydak_server.Server.{enter_client, admit_client}
use mydak_server.Server.Registry.{
  Placed-elsewhere, Placed-IsLive, Placed_here-IsLive, find-login, login_state,
}
use mydak_server.Server.Logins.{asking, online, Logins, finish_login, logged_in, answer_login}
use mydak_server.Server.Logins.Orderly.{IsOrderly, changed, kept, before}

module _ (m : Mariadb) where
  module _ (c : ℕ) (k : Bytes) (socket channel : Option ℕ) (id : ℕ) (l : Logins m)
      (h : IsOrderly m l) (at : get_elem? l.connections c ≡ some (asking k socket channel))
      (w : SlotVector Client) (new : ClientIndex)
      (p : Placed (make_client socket channel l.server.queues).0 l.server.clients w new)
      (inside : new.index ≢ invalid_index) where
    client : Client
    client = (make_client socket channel l.server.queues).0

    handle : ClientIndex
    handle = record new { db_index = id }

    was :
        (c' : ℕ) (k' : Bytes) (i : ClientIndex)
        → get_elem? (modify (λ _. online k handle) l.connections c) c' ≡ some (online k' i)
        → ((c ≡ c') × (online k handle ≡ online k' i))
          ⊎ ((c ≢ c') × (get_elem? l.connections c' ≡ some (online k' i)))
    was = before m c (asking k socket channel) (online k handle) l at

    elsewhere :
        (c' : ℕ) (k' : Bytes) (i : ClientIndex)
        → get_elem? l.connections c' ≡ some (online k' i)
        → i.index ≢ invalid_index
        → new.index ≢ i.index
    unfolding client
    elsewhere c' k' i old within =
        Placed-elsewhere client l.server.clients w new p i (h.live c' k' i old within)

    found :
        (j : Bytes)
        → find j
            (assign k handle (assign k (with_generation invalid_index id) l.server.client_indices))
          ≡ (if bytes_eq k j then some handle else find j l.server.client_indices)
    found = find-login k handle id l.server.client_indices

    after : Logins m
    after = record {
      server = login_state m k handle socket channel w l.server.db l.server;
      connections = modify (λ _. online k handle) l.connections c;
    }

    after-IsOrderly : IsOrderly m after
    unfolding after handle client
    after-IsOrderly = record {
      slots = p.valid;
      live = λ c' k' i e within. elim (was c' k' i e) [
        | inl (_, same) ↦
            Placed_here-IsLive client l.server.clients w new p i (ground (arith, same))
              (ground (arith, same))
        | inr (_, old) ↦ Placed-IsLive client l.server.clients w new p i (h.live c' k' i old within)
      ];
      apart = λ c' c'' k' k'' i i' e e' within same. elim (was c' k' i e) [
        | inl (here, new_i) ↦ elim (was c'' k'' i' e') [
          | inl (here', _) ↦ sym here ∙ here'
          | inr (_, old) ↦
              absurd (elsewhere c'' k'' i' old (λ out. within (same ∙ out)) (ground (arith, new_i)))
        ]
        | inr (_, old) ↦ elim (was c'' k'' i' e') [
          | inl (_, new_i) ↦ absurd (elsewhere c' k' i old within (ground (arith, new_i)))
          | inr (_, old') ↦ h.apart c' c'' k' k'' i i' old old' within same
        ]
      ];
      listed = λ k' i e. elim (Bool-cases (bytes_eq k k')) [
        | inl same ↦
            let key : k ≡ k' = (bytes_eq_iff k k').0 same in
            let its : handle ≡ i = ground (arith, found k') in
            (
              c,
              changed m c _ (online k handle) l at c ∙ ground arith,
              λ out. inside (ap (λ (a : ClientIndex). a.index) its ∙ out),
            )
        | inr other ↦
            let (c', here, within) = h.listed k' i (ground (arith, found k')) in
            (c', kept m c _ (online k handle) l at c' k' i here (λ e. cc), within)
      ];
    }

  -- What a login that finishes leaves.
  pub record Finished (c : ℕ) (k : Bytes) (i : ClientIndex) (l l' : Logins m) : Type 0 where
    pub orderly : IsOrderly m l'
    pub grown : length l'.server.clients.clients ≤ length l.server.clients.clients + 1
    pub inside : i.index ≢ invalid_index
    pub client : Client
    pub new : ClientIndex
    pub own_queue : client.client_data.messages ≡ some (length l.server.queues)
    pub own_channel :
        (s ch : Option ℕ)
        → get_elem? l.connections c ≡ some (asking k s ch)
        → client.client_data.signal_channel ≡ ch
    pub same_index : i.index ≡ new.index
    pub placed : Placed client l.server.clients l'.server.clients new
    pub heap : l'.server.queues ≡ l.server.queues ++ [] ∷ []
    pub connected : l'.connections ≡ modify (λ _. online k i) l.connections c
    pub entered :
        (j : Bytes)
        → find j l'.server.client_indices
          ≡ (if bytes_eq k j then some i else find j l.server.client_indices)

  Placed-inside :
      (x : Client) (v w : SlotVector Client) (new : ClientIndex)
      → Placed x v w new
      → length v.clients + 1 < word
      → new.index ≢ invalid_index
  Placed-inside x v w new p room =
      let here : slot_at w new.index
          ≡ some (record { object = some x; generation = new.generation }) =
        ground (arith, p.placed new.index) in
      omega (arith, get_elem?_lt w.clients new.index _ here, p.grown)

  pub answer_login-Finished :
      (c id : ℕ) (k : Bytes) (socket channel : Option ℕ) (l : Logins m)
      → IsOrderly m l
      → get_elem? l.connections c ≡ some (asking k socket channel)
      → length l.server.clients.clients + 1 < word
      → (i : ClientIndex) × (l' : Logins m) × (answer_login m c id
            (some (asking k socket channel))
            l
          ≡ some l')
        × Finished c k i l l'
  unfolding answer_login logged_in finish_login enter_client admit_client after handle client
  answer_login-Finished c id k socket channel l h at room =
      let x : Client = (make_client socket channel l.server.queues).0 in
      let (w, new, placed, p) = emplace_back-Placed x l.server.clients h.slots room in
      let inside = Placed-inside x l.server.clients w new p room in
      let l' : Logins m = after c k socket channel id l h at w new p inside in
      (
        record new { db_index = id },
        l',
        rw (placed, admit_client) refl,
        record {
          orderly = after-IsOrderly c k socket channel id l h at w new p inside;
          grown = p.grown;
          inside = inside;
          client = x;
          new = new;
          own_queue = unfold make_client in unfold make_queue in refl;
          own_channel = λ s ch e. unfold make_client in ground arith;
          same_index = refl;
          placed = p;
          heap = unfold make_client in unfold make_queue in refl;
          connected = refl;
          entered = found c k socket channel id l h at w new p inside;
        },
      )
