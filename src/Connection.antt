-- ===== src/Connection.antt =====
-- core/main/connection.hpp and connection.cpp: what the coroutine of one connection does, from the
-- public key to the end. The stream is what the peer sends before it closes.
pub mod Session
pub mod Forward
pub mod Endings
pub mod Return
pub mod Bystanders
pub mod Lifetime
pub mod Arrival
pub mod Misdelivery
pub mod Traffic
use mydak_server.Base.{
  ℕ, zero, suc, ◌==◌, List, [], ◌∷◌, ◌++◌, Bool, Option, none, some, if◌then◌else◌, Bytes, length,
  take,
}
use mydak_server.Task.{Outcome, done, threw, hung, undefined, and_then, ◌>>=◌, ◌>>◌, pure}
use mydak_server.ClientIndex.{ClientIndex, invalid_index, unset}
use mydak_server.Proto.{e2e_keys_raw_l}
use mydak_server.Wire.{Endian, Received, async_read, receive, queue_message}
use mydak_server.Database.{Mariadb}
use mydak_server.Server.{
  Server, SendCode, detached, add_client, remove_client, get_client_index, add_message_to_db,
  add_message_to_queue, send_delayed_messages,
}

-- `std::array<unsigned char, 32> public_key{}`, and what a read that fails leaves in it.
abbrev pub zero_key : Bytes
zero_key = zeros 32
  where
    zeros : ℕ → Bytes
    zeros zero = []
    zeros (suc n) = 0 ∷ zeros n

unfoldable pub partial_key : Bytes → Bytes
partial_key stream = take e2e_keys_raw_l (stream ++ zero_key)

module _ (m : Mariadb) (async_send : ℕ → Outcome (Unit {0})) where
  -- `delayed_message`
  delayed_message : ℕ → Bytes → Server m → Outcome (Unit {0}) × Server m
  delayed_message db_index message = add_message_to_db m db_index message

  -- `end_connection`
  unfoldable pub end_connection : ClientIndex → Bytes → Server m → Server m
  end_connection indices public_key = remove_client m indices.index public_key

  -- The loop's body from the label `add_message_to_queue` on, with what a jump back to it does.
  attempt :
      (Server m → Outcome (Unit {0}) × Server m)
      → Bytes
      → Bytes
      → Server m
      → Outcome (Unit {0}) × Server m
  unfolding delayed_message
  attempt again recipient queued_message s =
      and_then (get_client_index m recipient s) λ recipient_index.
        if recipient_index.index == invalid_index
        then delayed_message recipient_index.db_index queued_message
        else (add_message_to_queue m async_send recipient_index.index recipient_index.generation
              queued_message
            >>= λ code. elim code [ SendCode.expired_client ↦ again | _ ↦ pure tt ])

  -- The number is that of the jumps which are left. `tries++ >= 2` allows two.
  unfoldable pub forward : ℕ → Bytes → Bytes → Server m → Outcome (Unit {0}) × Server m
  unfolding attempt
  forward zero recipient queued_message = attempt (pure tt) recipient queued_message
  forward (suc tries) recipient queued_message =
      attempt (forward tries recipient queued_message) recipient queued_message

  -- The next round starts only if the coroutine goes on.
  abbrev pub continue_with :
      (Server m → Option (Outcome (Unit {0}) × Server m))
      → Outcome (Unit {0}) × Server m
      → Option (Outcome (Unit {0}) × Server m)
  continue_with next (done _, s) = next s
  continue_with next (r, s) = some (r, s)

  -- A round of the loop goes on with a frame, and leaves the loop otherwise. A read that fails throws
  -- a `system_error`, whose handler does what stands behind the loop too.
  abbrev pub next_round :
      (Bytes → Bytes → Bytes → Server m → Option (Outcome (Unit {0}) × Server m))
      → Received
      → Server m
      → Option (Outcome (Unit {0}) × Server m)
  next_round next (Received.frame recipient message rest) s = next recipient message rest s
  next_round next Received.read_failed s = some (done tt, s)
  next_round next Received.bad_prefix s = some (done tt, s)
  next_round next (Received.bad_size size) s = some (done tt, s)

  -- The loop `while (true)` of `start`; `none` means that the fuel ran out.
  unfoldable pub receive_loop :
      ℕ → Endian → Bytes → Bytes → Server m → Option (Outcome (Unit {0}) × Server m)
  receive_loop zero e public_key stream s = none
  receive_loop (suc fuel) e public_key stream s =
      next_round
        (λ recipient message rest t.
          continue_with (receive_loop fuel e public_key rest)
            (forward 2 recipient (queue_message e public_key message) t))
        (receive e stream) s

  -- `start` from the return of `add_client` on.
  run_session :
      Endian → Bytes → Bytes → ClientIndex → Server m → Option (Outcome (Unit {0}) × Server m)
  run_session e public_key stream indices s =
      let (_, s') =
        detached m
          (send_delayed_messages m async_send indices.index indices.generation indices.db_index)
          s in
      elim (receive_loop (suc (length stream)) e public_key stream s') [
        | none ↦ none
        | some r ↦ continue_with (λ t. some (done tt, end_connection indices public_key t)) r
      ]

  login_with :
      (ClientIndex → Server m → Option (Outcome (Unit {0}) × Server m))
      → Outcome ClientIndex × Server m
      → Option (Outcome (Unit {0}) × Server m)
  login_with next (done indices, s) = next indices s
  login_with next (threw, s) = some (threw, s)
  login_with next (hung, s) = some (hung, s)
  login_with next (undefined, s) = some (undefined, s)

  -- `connected`: `socket->remote_endpoint()` does not throw.
  unfoldable pub start :
      Endian
      → Bytes
      → Bool
      → Option ℕ
      → Option ℕ
      → Server m
      → Option (Outcome (Unit {0}) × Server m)
  unfolding run_session login_with
  start e stream connected socket signal_channel s = elim (async_read e2e_keys_raw_l stream) [
    | none ↦ some (done tt, end_connection unset (partial_key stream) s)
    | some (public_key, rest) ↦
        if connected
        then login_with (run_session e public_key rest)
            (add_client m public_key socket signal_channel s)
        else some (done tt, end_connection unset public_key s)
  ]
