-- ===== src/Server/Accept.antt =====
-- The loop of core/main/server.cpp that accepts connections: each ends in a call of
-- `handle_connection`, with an error or without one. Connections are numbered as they are made.
use mathlib.Core.List.{append_assoc, append-nil}
use mydak_server.Base.{
  ℕ, suc, ◌+◌, ◌≡◌, refl, Bool, true, false, List, [], ◌∷◌, ◌++◌, Option, none, some, if◌then◌else◌,
  arith, length,
}

-- The connection that waits in `async_accept`, those whose coroutine was spawned, and the number of
-- those that were made.
pub record Acceptor : Type 0 where
  pub accepting : Option ℕ
  pub spawned : List ℕ
  pub made : ℕ

unfoldable pub start_accepting_connections : Acceptor → Acceptor
start_accepting_connections a = record a { accepting = some a.made; made = suc a.made }

handle_connection : ℕ → Bool → Acceptor → Acceptor
unfolding start_accepting_connections
handle_connection new_connection error a =
    start_accepting_connections
      (if error then a else record a { spawned = a.spawned ++ new_connection ∷ [] })

-- `async_accept` is complete.
unfoldable pub accept_one : Bool → Acceptor → Acceptor
unfolding handle_connection
accept_one error a = elim a.accepting [ none ↦ a | some c ↦ handle_connection c error a ]

unfoldable pub accept_all : List Bool → Acceptor → Acceptor
unfolding accept_one
accept_all [] a = a
accept_all (error ∷ errors) a = accept_all errors (accept_one error a)

-- The numbers from `n` on of the accepts without an error.
abbrev pub succeeded : ℕ → List Bool → List ℕ
succeeded n [] = []
succeeded n (true ∷ errors) = succeeded (suc n) errors
succeeded n (false ∷ errors) = n ∷ succeeded (suc n) errors

-- After any accepts, with errors or without, the server accepts the next connection, and has spawned
-- a coroutine for each connection that was accepted without an error, in order.
pub accept_all-spawned :
    (errors : List Bool) (n : ℕ) (spawned : List ℕ)
    → accept_all errors (record { accepting = some n; spawned = spawned; made = suc n }) ≡ record {
      accepting = some (length errors + n);
      spawned = spawned ++ succeeded n errors;
      made = suc (length errors + n);
    }
unfolding accept_all
accept_all-spawned [] n spawned = let z : 0 + n ≡ n = omega arith in rw (z, append-nil spawned) refl
accept_all-spawned (true ∷ errors) n spawned =
    let e : suc (length errors) + n ≡ length errors + suc n = omega arith in
    rw e (accept_all-spawned errors (suc n) spawned)
accept_all-spawned (false ∷ errors) n spawned =
    let e : suc (length errors) + n ≡ length errors + suc n = omega arith in
    rw (e, ← append_assoc spawned (n ∷ []) (succeeded (suc n) errors))
      (accept_all-spawned errors (suc n) (spawned ++ n ∷ []))
