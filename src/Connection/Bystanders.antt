-- ===== src/Connection/Bystanders.antt =====
-- The loop of a connection of core/main/connection.cpp and the registry of the server.
use mathlib.Core.Option.{some-injective}
use mathlib.Core.Path.{subst}
use mydak_server.Base.{ℕ, zero, suc, ◌≡◌, inl, inr, Bool-cases, Option, some, Bytes, ◌==◌}
use mydak_server.Task.{Outcome, done, threw, hung, undefined}
use mydak_server.ClientIndex.{invalid_index}
use mydak_server.Wire.{Endian, Received, receive, queue_message}
use mydak_server.Database.{Mariadb}
use mydak_server.Server.{
  Server, SendCode, no_client, expired_client, bad_signal, success, exception, get_client_index,
  add_message_to_queue,
}
use mydak_server.Server.Bystanders.{
  Keeps, and_then-Keeps, get_client_index-Keeps, add_message_to_db-Keeps,
  add_message_to_queue-Keeps,
}
use mydak_server.Connection.{attempt, forward, continue_with, next_round, receive_loop}

module _ (m : Mariadb) (async_send : ℕ → Outcome (Unit {0})) where
  attempt-Keeps :
      (again : Server m → Outcome (Unit {0}) × Server m) (k message : Bytes) (s t : Server m)
      → ((u : Server m) → Keeps m s u → Keeps m s (again u).1)
      → Keeps m s t
      → Keeps m s (attempt m async_send again k message t).1
  unfolding attempt
  attempt-Keeps again k message s t next h =
      and_then-Keeps m s (get_client_index m k t) _ (get_client_index-Keeps m k s t h) λ i u g.
        elim (Bool-cases (i.index == invalid_index)) [
          | inl offline ↦ rw offline (add_message_to_db-Keeps m i.db_index message s u g)
          | inr online ↦ rw online (
              and_then-Keeps m {A = SendCode} s
                (add_message_to_queue m async_send i.index i.generation message u) _
                (add_message_to_queue-Keeps m async_send i.index i.generation message s u g)
                λ code v l. elim code as (λ c. Keeps m s (after c v).1) [
                  | expired_client ↦ next v l
                  | no_client ↦ l
                  | bad_signal ↦ l
                  | success ↦ l
                  | exception ↦ l
                ])
        ]
    where
      after : SendCode → Server m → Outcome (Unit {0}) × Server m
      after code = elim code [ expired_client ↦ again | _ ↦ λ v. (done tt, v) ]

  forward-Keeps :
      (tries : ℕ) (k message : Bytes) (s t : Server m)
      → Keeps m s t
      → Keeps m s (forward m async_send tries k message t).1
  unfolding forward
  forward-Keeps zero k message s t h = attempt-Keeps _ k message s t (λ u g. g) h
  forward-Keeps (suc tries) k message s t h =
      attempt-Keeps _ k message s t (λ u g. forward-Keeps tries k message s u g) h

  continue-Keeps :
      (next : Server m → Option (Outcome (Unit {0}) × Server m))
      (x r : Outcome (Unit {0}) × Server m) (s : Server m)
      → ((t : Server m) → Keeps m s t → next t ≡ some r → Keeps m s r.1)
      → Keeps m s x.1
      → continue_with m async_send next x ≡ some r
      → Keeps m s r.1
  continue-Keeps next (done a, t) r s f h e = f t h e
  continue-Keeps next (threw, t) r s f h e = subst (λ z. Keeps m s z.1) (some-injective _ _ e) h
  continue-Keeps next (hung, t) r s f h e = subst (λ z. Keeps m s z.1) (some-injective _ _ e) h
  continue-Keeps next (undefined, t) r s f h e = subst (λ z. Keeps m s z.1) (some-injective _ _ e) h

  next_round-Keeps :
      (next : Bytes → Bytes → Bytes → Server m → Option (Outcome (Unit {0}) × Server m))
      (x : Received) (s t : Server m) (r : Outcome (Unit {0}) × Server m)
      → ((a b c : Bytes) → next a b c t ≡ some r → Keeps m s r.1)
      → Keeps m s t
      → next_round m async_send next x t ≡ some r
      → Keeps m s r.1
  next_round-Keeps next (Received.frame a b c) s t r f h e = f a b c e
  next_round-Keeps next Received.read_failed s t r f h e =
      subst (λ z. Keeps m s z.1) (some-injective _ _ e) h
  next_round-Keeps next Received.bad_prefix s t r f h e =
      subst (λ z. Keeps m s z.1) (some-injective _ _ e) h
  next_round-Keeps next (Received.bad_size n) s t r f h e =
      subst (λ z. Keeps m s z.1) (some-injective _ _ e) h

  pub receive_loop-Keeps :
      (fuel : ℕ) (e : Endian) (public_key stream : Bytes) (s t : Server m)
      (r : Outcome (Unit {0}) × Server m)
      → Keeps m s t
      → receive_loop m async_send fuel e public_key stream t ≡ some r
      → Keeps m s r.1
  unfolding receive_loop
  receive_loop-Keeps zero e public_key stream s t r h ran = cc
  receive_loop-Keeps (suc fuel) e public_key stream s t r h ran =
      next_round-Keeps _ (receive e stream) s t r
        (λ recipient message rest.
          continue-Keeps (receive_loop m async_send fuel e public_key rest)
            (forward m async_send 2 recipient (queue_message e public_key message) t) r s
            (λ u g. receive_loop-Keeps fuel e public_key rest s u r g)
            (forward-Keeps 2 recipient (queue_message e public_key message) s t h))
        h ran
