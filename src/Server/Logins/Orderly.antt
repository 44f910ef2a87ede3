-- ===== src/Server/Logins/Orderly.antt =====
-- The order of connections and slots in core/main/server.cpp, and a login that begins.
use mydak_server.Base.{
  ℕ, ◌≡◌, ◌≢◌, ◌∙◌, inl, inr, ◌⊎◌, Bool-cases, [], ◌∷◌, ◌++◌, Option, some, arith, ◌==◌,
  if◌then◌else◌, modify, get_elem?, get_elem?-modify_at, get_elem?-append_one, get_elem?_lt, Bytes,
  find,
}
use mydak_server.ClientIndex.{ClientIndex, invalid_index, empty_index, with_db_index}
use mydak_server.SlotVector.Vacancies.{IsValid}
use mydak_server.Database.{Mariadb}
use mydak_server.Server.{is_known}
use mydak_server.Server.Registry.{IsLive}
use mydak_server.Server.Logins.{Phase, asking, online, Logins, begin_login}

module _ (m : Mariadb) where
  -- Each connection with a handle has a live slot of its own, and each key in the map is that of a
  -- connection, under its handle. A handle with the invalid index names no slot.
  pub record IsOrderly (l : Logins m) : Type 0 where
    pub slots : IsValid l.server.clients
    pub live :
        (c : ℕ) (k : Bytes) (i : ClientIndex)
        → get_elem? l.connections c ≡ some (online k i)
        → i.index ≢ invalid_index
        → IsLive l.server.clients i
    pub apart :
        (c c' : ℕ) (k k' : Bytes) (i i' : ClientIndex)
        → get_elem? l.connections c ≡ some (online k i)
        → get_elem? l.connections c' ≡ some (online k' i')
        → i.index ≢ invalid_index
        → i.index ≡ i'.index
        → c ≡ c'
    pub listed :
        (k : Bytes) (i : ClientIndex)
        → find k l.server.client_indices ≡ some i
        → (c : ℕ) × (get_elem? l.connections c ≡ some (online k i)) × (i.index ≢ invalid_index)

  -- A login that begins adds a connection with no slot.
  pub appended :
      (k k' : Bytes) (socket channel : Option ℕ) (l : Logins m) (c : ℕ) (i : ClientIndex)
      → get_elem? (begin_login m k' socket channel l).connections c ≡ some (online k i)
      → i.index ≢ invalid_index
      → get_elem? l.connections c ≡ some (online k i)
  unfolding begin_login empty_index with_db_index
  appended k k' socket channel l c i e inside = elim (Bool-cases (is_known m k' l.server)) [
    | inl known ↦ ground (arith, get_elem?-append_one l.connections (online k' empty_index) c)
    | inr new ↦ ground (arith, get_elem?-append_one l.connections (asking k' socket channel) c)
  ]

  pub begin_login-IsOrderly :
      (k : Bytes) (socket channel : Option ℕ) (l : Logins m)
      → IsOrderly l
      → IsOrderly (begin_login m k socket channel l)
  unfolding begin_login
  begin_login-IsOrderly k socket channel l h = record {
    slots = h.slots;
    live = λ c k' i e inside. h.live c k' i (appended k' k socket channel l c i e inside) inside;
    apart = λ c c' k' k'' i i' e e' inside same.
        h.apart c c' k' k'' i i' (appended k' k socket channel l c i e inside)
          (appended k'' k socket channel l c' i' e' (λ out. inside (same ∙ out))) inside same;
    listed = λ k' i e. let (c, here, inside) = h.listed k' i e in (c, stays c k' i here, inside);
  }
    where
      p : Phase
      p = if is_known m k l.server then online k empty_index else asking k socket channel

      stays :
          (c : ℕ) (k' : Bytes) (i : ClientIndex)
          → get_elem? l.connections c ≡ some (online k' i)
          → get_elem? (l.connections ++ p ∷ []) c ≡ some (online k' i)
      stays c k' i e = ground (
        arith,
        get_elem?-append_one l.connections p c,
        get_elem?_lt l.connections c (online k' i) e,
      )

  -- The connection `c` has been put into another phase.
  module _ (c : ℕ) (p q : Phase) (l : Logins m) (at : get_elem? l.connections c ≡ some p) where
    pub changed :
        (c' : ℕ)
        → get_elem? (modify (λ _. q) l.connections c) c'
          ≡ (if c == c' then some q else get_elem? l.connections c')
    changed c' = get_elem?-modify_at (λ _. q) l.connections c c' p at

    pub kept :
        (c' : ℕ) (k : Bytes) (i : ClientIndex)
        → get_elem? l.connections c' ≡ some (online k i)
        → p ≢ online k i
        → get_elem? (modify (λ _. q) l.connections c) c' ≡ some (online k i)
    kept c' k i e other = ground (arith, changed c')

    pub before :
        (c' : ℕ) (k : Bytes) (i : ClientIndex)
        → get_elem? (modify (λ _. q) l.connections c) c' ≡ some (online k i)
        → ((c ≡ c') × (q ≡ online k i))
          ⊎ ((c ≢ c') × (get_elem? l.connections c' ≡ some (online k i)))
    before c' k i e = elim (Bool-cases (c == c')) [
      | inl same ↦ inl (ground arith, ground (arith, changed c'))
      | inr other ↦ inr (ground arith, ground (arith, changed c'))
    ]
