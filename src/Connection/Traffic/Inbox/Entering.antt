-- ===== src/Connection/Traffic/Inbox/Entering.antt =====
-- Connections that log in, and the queue of another, in core/main/server.cpp.
use mydak_server.Base.{
  ℕ, ◌+◌, ◌<◌, ◌≡◌, ◌≢◌, refl, sym, ap, ◌∙◌, inl, inr, Bool-cases, List, [], Option, none, some,
  Option-cases, arith, Bytes, bytes_eq_iff, find, length, get_elem?, get_elem?_lt,
  get_elem?-append_one, get_elem?-modify_at, ◌==◌, if◌then◌else◌, word,
}
use mydak_server.ClientIndex.{ClientIndex, empty_index}
use mydak_server.Server.Registry.{Placed-elsewhere}
use mydak_server.Database.{Mariadb}
use mydak_server.Server.{is_known}
use mydak_server.Server.Logins.{Phase, asking, online, gone, Logins, begin_login, answer_login}
use mydak_server.Server.Logins.Finish.{Finished, answer_login-Finished}
use mydak_server.Connection.Traffic.Addressed.{IsAddressed}
use mydak_server.Connection.Traffic.Inbox.{Inbox, Then, Anything, just}

module _ (m : Mariadb) (c : ℕ) (k : Bytes) (i : ClientIndex) (q : ℕ) where
  pub begin_login-Inbox :
      (k' : Bytes) (socket channel : Option ℕ) (messages : List Bytes) (l : Logins m)
      → Inbox m c k i q messages l
      → Inbox m c k i q messages (begin_login m k' socket channel l)
  unfolding begin_login is_known
  begin_login-Inbox k' socket channel messages l h = record {
    on = ground (
      arith,
      get_elem?-append_one l.connections p c,
      get_elem?_lt l.connections c (online k i) h.on,
      h.on,
    );
    inside = h.inside;
    entry = h.entry;
    client = h.client;
    here = h.here;
    active = h.active;
    mine = h.mine;
    held = h.held;
    quiet = λ c' s ch e. elim (Bool-cases (c' == length l.connections)) [
      | inr old ↦ h.quiet c' s ch (ground (arith, get_elem?-append_one l.connections p c'))
      | inl new ↦
          let its : p ≡ asking k s ch = ground (arith, get_elem?-append_one l.connections p c') in
          unknown s ch its
    ];
  }
    where
      p : Phase
      p = if is_known m k' l.server then online k' empty_index else asking k' socket channel

      unknown : (s ch : Option ℕ) → p ≢ asking k s ch
      unknown s ch e = elim (Option-cases (find k' l.server.client_indices)) [
        | inl missing ↦
            let same : k' ≡ k = ground arith in
            ground (arith, ap (λ j. find j l.server.client_indices) same, h.entry)
        | inr (j, known) ↦ ground arith
      ]

  Finished-Inbox :
      (c' : ℕ) (k' : Bytes) (socket channel : Option ℕ) (i' : ClientIndex) (messages : List Bytes)
      (l l' : Logins m)
      → Inbox m c k i q messages l
      → get_elem? l.connections c' ≡ some (asking k' socket channel)
      → Finished m c' k' i' l l'
      → Inbox m c k i q messages l'
  Finished-Inbox c' k' socket channel i' messages l l' h at f =
      let other : k' ≢ k = λ same. h.quiet c' socket channel (rw (← same) at) in
      let away : f.new.index ≢ i.index =
        Placed-elsewhere f.client l.server.clients l'.server.clients f.new f.placed i (record {
          slot = record { object = some h.client; generation = i.generation };
          client = h.client;
          present = h.here;
          occupied = refl;
          same_life = refl;
        }) in
      record {
        on = ground (
          arith,
          f.connected,
          get_elem?-modify_at (λ _. online k' i') l.connections c' c _ at,
          h.on,
        );
        inside = h.inside;
        entry = ground (arith, f.entered k, bytes_eq_iff k' k, h.entry);
        client = h.client;
        here = ground (arith, f.placed.placed i.index, away, h.here);
        active = h.active;
        mine = h.mine;
        held = ground (
          arith,
          f.heap,
          get_elem?-append_one l.server.queues [] q,
          h.held,
          get_elem?_lt l.server.queues q messages h.held,
        );
        quiet = λ c'' s ch e. h.quiet c'' s ch (
            ground (
              arith,
              f.connected,
              get_elem?-modify_at (λ _. online k' i') l.connections c' c'' _ at,
            ));
      }

  pub answer_login-Inbox :
      (c' id : ℕ) (p : Option Phase) (messages : List Bytes) (l : Logins m)
      → IsAddressed m Anything l
      → Inbox m c k i q messages l
      → get_elem? l.connections c' ≡ p
      → length l.server.clients.clients + 1 < word
      → Then m c k i q messages (answer_login m c' id p l)
  answer_login-Inbox c' id (some (asking k' socket channel)) messages l a h at room =
      let (i', after, did, f) =
        answer_login-Finished m c' id k' socket channel l a.orderly at room in
      λ l' ran.
        just m c k i q messages after
          (Finished-Inbox c' k' socket channel i' messages l after h at f) l' (sym did ∙ ran)
  answer_login-Inbox c' id (some (online k' i')) messages l a h at room =
      unfold answer_login in just m c k i q messages l h
  answer_login-Inbox c' id (some gone) messages l a h at room =
      unfold answer_login in just m c k i q messages l h
  answer_login-Inbox c' id none messages l a h at room =
      unfold answer_login in just m c k i q messages l h
