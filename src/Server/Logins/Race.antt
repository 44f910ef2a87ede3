-- ===== src/Server/Logins/Race.antt =====
-- Two connections with one key that log in at the same time, in core/main/server.cpp.
use mydak_server.Base.{
  ℕ, ◌+◌, ◌<◌, ◌≡◌, ◌≢◌, refl, ap, sym, ◌∙◌, List, [], ◌∷◌, Option, none, some, arith, ◌>>=◌, word,
  length, modify, get_elem?, get_elem?-modify_at, Bytes, bytes_eq_refl, find, find-erase,
}
use mydak_server.ClientIndex.{ClientIndex}
use mydak_server.Database.{Mariadb}
use mydak_server.Server.{remove_client}
use mydak_server.Server.Registry.{IsLive}
use mydak_server.Server.Logins.{
  Phase, asking, online, gone, answered, ends, Logins, end_login, login_step, login_run,
}
use mydak_server.Server.Logins.Orderly.{IsOrderly}
use mydak_server.Server.Logins.Finish.{answer_login-Finished}
use mydak_server.Server.Logins.Leave.{end_login-IsOrderly}

-- A phase that is written at one place of a list is found there, and not elsewhere.
put :
    (q : Phase) (c : ℕ) (p : Phase) (xs ys : List Phase)
    → ys ≡ modify (λ _. q) xs c
    → get_elem? xs c ≡ some p
    → get_elem? ys c ≡ some q
put q c p xs ys e at = rw e (ground (arith, get_elem?-modify_at (λ (_ : Phase). q) xs c c p at))

elsewhere :
    (q : Phase) (c c' : ℕ) (p p' : Phase) (xs : List Phase)
    → get_elem? xs c ≡ some p
    → get_elem? xs c' ≡ some p'
    → c ≢ c'
    → get_elem? (modify (λ _. q) xs c) c' ≡ some p'
elsewhere q c c' p p' xs at at' two =
    ground (arith, get_elem?-modify_at (λ (_ : Phase). q) xs c c' p at)

module _ (m : Mariadb) where
  -- Where logins and slots are in order as in the invariant of the interleavings, with fewer than
  -- 2^64 - 2 slots, and two connections with the same key both wait for the key's row: if the
  -- database answers both and the first then ends, the second is logged in and its slot is live,
  -- but the key is not in the map.
  pub login_race :
      (c c' id id' : ℕ) (k : Bytes) (socket channel socket' channel' : Option ℕ) (l : Logins m)
      → IsOrderly m l
      → length l.server.clients.clients + 2 < word
      → c ≢ c'
      → get_elem? l.connections c ≡ some (asking k socket channel)
      → get_elem? l.connections c' ≡ some (asking k socket' channel')
      → (i i' : ClientIndex) × (l' : Logins m) × (login_run m
            (answered c id ∷ answered c' id' ∷ ends c ∷ [])
            l
          ≡ some l')
        × (get_elem? l'.connections c' ≡ some (online k i'))
        × IsLive l'.server.clients i'
        × (find k l'.server.client_indices ≡ none)
  unfolding login_run login_step
  login_race c c' id id' k socket channel socket' channel' l h room two at at' =
      let (i, l1, ran1, f) = answer_login-Finished m c id k socket channel l h at (omega arith) in
      let at1 : get_elem? l1.connections c' ≡ some (asking k socket' channel') =
        ap (λ cs. get_elem? cs c') f.connected
        ∙ elsewhere (online k i) c c' _ _ l.connections at at' two in
      let (i', l2, ran2, g) =
        answer_login-Finished m c' id' k socket' channel' l1 f.orderly at1
          (omega (arith, f.grown)) in
      let at2 : get_elem? l2.connections c ≡ some (online k i) =
        ap (λ cs. get_elem? cs c) g.connected
        ∙ elsewhere (online k i') c' c _ _ l1.connections at1
            (put (online k i) c _ l.connections l1.connections f.connected at)
            (λ same. two (sym same)) in
      let at2' : get_elem? l2.connections c' ≡ some (online k i') =
        put (online k i') c' _ l1.connections l2.connections g.connected at1 in
      let (orderly, _) =
        end_login-IsOrderly m c k i l2 g.orderly at2 (omega (arith, f.grown, g.grown)) in
      let l3 : Logins m = end_login m c (some (online k i)) l2 in
      let at3 : get_elem? l3.connections c' ≡ some (online k i') =
        unfold end_login in elsewhere gone c c' _ _ l2.connections at2 at2' two in
      (
        i,
        i',
        l3,
        rw (at, ran1, ◌>>=◌, at1, ran2, at2) refl,
        at3,
        orderly.live c' k i' at3 g.inside,
        unfold end_login in
            unfold remove_client in
            ground (arith, find-erase k k l2.server.client_indices, bytes_eq_refl k),
      )
