-- ===== src/Server/Logins/Leave.antt =====
-- A connection that has logged in and ends, in core/main/server.cpp.
use mathlib.Core.Path.{subst}
use mydak_server.Base.{
  ℕ, ◌<◌, ◌≡◌, ◌≢◌, sym, ◌∙◌, inl, inr, Bool-cases, some, arith, ◌==◌, word, length, modify,
  get_elem?, length-modify, Bytes, bytes_eq_iff, find, find-erase,
}
use mydak_server.ClientIndex.{ClientIndex, invalid_index}
use mydak_server.Slot.{clear}
use mydak_server.SlotVector.{SlotVector, pop}
use mydak_server.SlotVector.Vacancies.{IsValid, pop-IsValid}
use mydak_server.Client.{Client}
use mydak_server.Database.{Mariadb}
use mydak_server.Server.{remove_client}
use mydak_server.Server.Registry.{IsLive}
use mydak_server.Server.Departure.{IsLive-pop}
use mydak_server.Server.Logins.{online, gone, Logins, end_login}
use mydak_server.Server.Logins.Orderly.{IsOrderly, kept, before}

-- What a pop of a client's index leaves of the other slots.
record Popped (v : SlotVector Client) (i : ClientIndex) : Type 0 where
  pub valid : IsValid (pop i.index v)
  pub stays : (a : ClientIndex) → i.index ≢ a.index → IsLive v a → IsLive (pop i.index v) a

-- The index is that of a live client, or the invalid one, at which `pop` returns.
popped :
    (v : SlotVector Client) (i : ClientIndex)
    → length v.clients < word
    → IsValid v
    → (i.index ≢ invalid_index → IsLive v i)
    → Popped v i
popped v i room valid live = elim (Bool-cases (i.index == invalid_index)) [
  | inl guest ↦
      let same : pop i.index v ≡ v = unfold pop in ground arith in
      record {
        valid = subst IsValid (sym same) valid;
        stays = λ a ne o. subst (λ w. IsLive w a) (sym same) o;
      }
  | inr holder ↦
      let l = live (ground arith) in
      record {
        valid = pop-IsValid i.index v l.slot l.client valid l.present l.occupied;
        stays = λ a ne o. IsLive-pop v i a l o ne;
      }
]

module _ (m : Mariadb) where
  module _ (c : ℕ) (k : Bytes) (i : ClientIndex) (l : Logins m) (h : IsOrderly m l)
      (at : get_elem? l.connections c ≡ some (online k i)) where
    left : Logins m
    left = record {
      server = remove_client m i.index k l.server;
      connections = modify (λ _. gone) l.connections c;
    }

    was :
        (c' : ℕ) (k' : Bytes) (a : ClientIndex)
        → get_elem? (modify (λ _. gone) l.connections c) c' ≡ some (online k' a)
        → (c ≢ c') × (get_elem? l.connections c' ≡ some (online k' a))
    was c' k' a e = elim (before m c (online k i) gone l at c' k' a e) [
      | inl (_, e') ↦ absurd (ground (arith, e'))
      | inr old ↦ old
    ]

    left-IsOrderly : length l.server.clients.clients < word → IsOrderly m left
    unfolding left remove_client
    left-IsOrderly room =
        let p = popped l.server.clients i room h.slots (h.live c k i at) in
        record {
          slots = p.valid;
          live = λ c' k' a e inside.
              let (other, old) = was c' k' a e in
              p.stays a
                (λ same. other (h.apart c c' k k' i a at old (λ out. inside (sym same ∙ out)) same))
                (h.live c' k' a old inside);
          apart = λ c' c'' k' k'' a b e e' inside same.
              h.apart c' c'' k' k'' a b (was c' k' a e).1 (was c'' k'' b e').1 inside same;
          listed = λ k' a e.
              let old : find k' l.server.client_indices ≡ some a =
                ground (arith, find-erase k k' l.server.client_indices) in
              let key : k ≢ k' = λ same.
                ground (arith, find-erase k k' l.server.client_indices, bytes_eq_iff k k') in
              let (c', here, inside) = h.listed k' a old in
              (
                c',
                kept m c (online k i) gone l at c' k' a here (λ same. key (ground arith)),
                inside,
              );
        }

    left-length : length left.server.clients.clients ≡ length l.server.clients.clients
    unfolding left remove_client pop
    left-length = ground (arith, length-modify clear l.server.clients.clients i.index)

  pub end_login-IsOrderly :
      (c : ℕ) (k : Bytes) (i : ClientIndex) (l : Logins m)
      → IsOrderly m l
      → get_elem? l.connections c ≡ some (online k i)
      → length l.server.clients.clients < word
      → IsOrderly m (end_login m c (some (online k i)) l)
        × (length (end_login m c (some (online k i)) l).server.clients.clients
            ≡ length l.server.clients.clients)
  unfolding end_login left
  end_login-IsOrderly c k i l h at room =
      (left-IsOrderly c k i l h at room, left-length c k i l h at)
