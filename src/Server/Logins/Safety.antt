-- ===== src/Server/Logins/Safety.antt =====
-- Every interleaving of logins and departures, in core/main/server.cpp.
use mydak_server.Base.{
  ℕ, ◌+◌, ◌≤◌, ◌<◌, ◌≡◌, refl, List, [], ◌∷◌, Option, none, some, arith, ◌>>=◌, word, length,
  get_elem?,
}
use mydak_server.Database.{Mariadb}
use mydak_server.Server.Logins.{
  Phase, asking, online, gone, LoginEvent, connects, answered, ends, Logins, begin_login,
  answer_login, end_login, login_step, login_run,
}
use mydak_server.Server.Logins.Orderly.{IsOrderly, begin_login-IsOrderly}
use mydak_server.Server.Logins.Finish.{answer_login-Finished}
use mydak_server.Server.Logins.Leave.{end_login-IsOrderly}

module _ (m : Mariadb) where
  -- What a step leaves: it is defined, keeps the order and adds one slot at most.
  abbrev Continues : Logins m → Option (Logins m) → Type 0
  Continues l r =
      (l' : Logins m) × (r ≡ some l')
      × IsOrderly m l'
      × (length l'.server.clients.clients ≤ length l.server.clients.clients + 1)

  answer-Continues :
      (c id : ℕ) (p : Option Phase) (l : Logins m)
      → IsOrderly m l
      → get_elem? l.connections c ≡ p
      → length l.server.clients.clients + 1 < word
      → Continues l (answer_login m c id p l)
  answer-Continues c id (some (asking k socket channel)) l h at room =
      let (i, l', ran, f) = answer_login-Finished m c id k socket channel l h at room in
      (l', ran, f.orderly, f.grown)
  answer-Continues c id (some (online k i)) l h at room =
      (l, unfold answer_login in refl, h, omega arith)
  answer-Continues c id (some gone) l h at room = (l, unfold answer_login in refl, h, omega arith)
  answer-Continues c id none l h at room = (l, unfold answer_login in refl, h, omega arith)

  end-Continues :
      (c : ℕ) (p : Option Phase) (l : Logins m)
      → IsOrderly m l
      → get_elem? l.connections c ≡ p
      → length l.server.clients.clients + 1 < word
      → Continues l (some (end_login m c p l))
  end-Continues c (some (online k i)) l h at room =
      let (orderly, same) = end_login-IsOrderly m c k i l h at (omega arith) in
      (end_login m c (some (online k i)) l, refl, orderly, omega arith)
  end-Continues c (some (asking k socket channel)) l h at room =
      (l, unfold end_login in refl, h, omega arith)
  end-Continues c (some gone) l h at room = (l, unfold end_login in refl, h, omega arith)
  end-Continues c none l h at room = (l, unfold end_login in refl, h, omega arith)

  step-Continues :
      (e : LoginEvent) (l : Logins m)
      → IsOrderly m l
      → length l.server.clients.clients + 1 < word
      → Continues l (login_step m e l)
  unfolding login_step
  step-Continues (connects k socket channel) l h room = (
    begin_login m k socket channel l,
    refl,
    begin_login-IsOrderly m k socket channel l h,
    unfold begin_login in omega arith,
  )
  step-Continues (answered c id) l h room =
      answer-Continues c id (get_elem? l.connections c) l h refl room
  step-Continues (ends c) l h room = end-Continues c (get_elem? l.connections c) l h refl room

  -- Take a valid slot vector and any number of connections, of which each one that has logged in,
  -- other than with the empty index, has a live slot of its own, and each key in the map is that of
  -- such a connection, under its handle. After any events in any order, in which peers send their
  -- keys, the database answers waiting logins and connections end, nothing was undefined and the
  -- same holds, if the slots and the events together are fewer than 2^64: no slot is given to two
  -- connections and no connection loses its slot to another. Peers that close before their key is
  -- read, or whose address cannot be read, are not among the events.
  pub login_run-IsOrderly :
      (es : List LoginEvent) (l : Logins m)
      → IsOrderly m l
      → length l.server.clients.clients + length es < word
      → (l' : Logins m) × (login_run m es l ≡ some l') × IsOrderly m l'
  unfolding login_run
  login_run-IsOrderly [] l h room = (l, refl, h)
  login_run-IsOrderly (e ∷ es) l h room =
      let (l', stepped, h', grown) = step-Continues e l h (omega arith) in
      let (l'', ran, h'') = login_run-IsOrderly es l' h' (omega arith) in
      (l'', rw (stepped, ◌>>=◌) ran, h'')
