-- ===== src/Connection/Session.antt =====
-- The loop of `connection::start` ends, and forwards each frame of the stream in turn.
use mathlib.Core.Path.{fun_ext}
use mydak_server.Base.{
  Bool, Bool-cases, ℕ, zero, suc, ◌+◌, ◌<◌, ◌≡◌, refl, ap, ◌∙◌, inl, inr, List, [], ◌∷◌, ◌++◌,
  Option, some, Option-cases, arith, Bytes, length, All,
}
use mydak_server.Task.{Outcome, done, threw, hung, undefined}
use mydak_server.Proto.{e2e_keys_raw_l}
use mydak_server.Wire.{Endian, Received, async_read, receive, queue_message}
use mydak_server.Wire.Frame.{IsFrame, frame_bytes, receive-frame_bytes, receive-shrinks}
use mydak_server.Database.{Mariadb}
use mydak_server.ClientIndex.{ClientIndex}
use mydak_server.Server.{Server, detached, send_delayed_messages}
use mydak_server.Connection.{
  forward, continue_with, next_round, receive_loop, end_connection, run_session, login_with, start,
}

module _ (m : Mariadb) (async_send : ℕ → Outcome (Unit {0})) where
  -- What a step of the coroutine leaves is a result if the next step's is.
  continue-total :
      (next : Server m → Option (Outcome (Unit {0}) × Server m)) (r : Outcome (Unit {0}) × Server m)
      → ((s : Server m) → (t : Outcome (Unit {0}) × Server m) × (next s ≡ some t))
      → (t : Outcome (Unit {0}) × Server m) × (continue_with m async_send next r ≡ some t)
  continue-total next (done _, s) f = f s
  continue-total next (threw, s) f = ((threw, s), refl)
  continue-total next (hung, s) f = ((hung, s), refl)
  continue-total next (undefined, s) f = ((undefined, s), refl)

  next_round-total :
      (next : Bytes → Bytes → Bytes → Server m → Option (Outcome (Unit {0}) × Server m))
      (r : Received) (s : Server m)
      → ((a b c : Bytes)
          → r ≡ Received.frame a b c
          → (t : Outcome (Unit {0}) × Server m) × (next a b c s ≡ some t))
      → (t : Outcome (Unit {0}) × Server m) × (next_round m async_send next r s ≡ some t)
  next_round-total next (Received.frame a b c) s f = f a b c refl
  next_round-total next Received.read_failed s f = ((done tt, s), refl)
  next_round-total next Received.bad_prefix s f = ((done tt, s), refl)
  next_round-total next (Received.bad_size n) s f = ((done tt, s), refl)

  -- The stream's length bounds the number of rounds.
  pub receive_loop-total :
      (fuel : ℕ) (e : Endian) (public_key stream : Bytes) (s : Server m)
      → length stream < fuel
      → (t : Outcome (Unit {0}) × Server m) × (receive_loop m async_send fuel e public_key stream s
          ≡ some t)
  unfolding receive_loop
  receive_loop-total zero e public_key stream s h = elim h [ ]
  receive_loop-total (suc fuel) e public_key stream s h =
      next_round-total _ (receive e stream) s λ recipient message rest taken.
        continue-total (receive_loop m async_send fuel e public_key rest) _ λ t.
          receive_loop-total fuel e public_key rest t
            (omega (arith, receive-shrinks e stream recipient message rest taken))

  login-total :
      (next : ClientIndex → Server m → Option (Outcome (Unit {0}) × Server m))
      (r : Outcome ClientIndex × Server m)
      → ((i : ClientIndex) (s : Server m)
          → (t : Outcome (Unit {0}) × Server m) × (next i s ≡ some t))
      → (t : Outcome (Unit {0}) × Server m) × (login_with m async_send next r ≡ some t)
  unfolding login_with
  login-total next (done i, s) f = f i s
  login-total next (threw, s) f = ((threw, s), refl)
  login-total next (hung, s) f = ((hung, s), refl)
  login-total next (undefined, s) f = ((undefined, s), refl)

  run_session-total :
      (e : Endian) (public_key stream : Bytes) (i : ClientIndex) (s : Server m)
      → (t : Outcome (Unit {0}) × Server m) × (run_session m async_send e public_key stream i s
          ≡ some t)
  unfolding run_session
  run_session-total e public_key stream i s =
      let s' =
        (detached m (send_delayed_messages m async_send i.index i.generation i.db_index) s).1 in
      let (r, ran) =
        receive_loop-total (suc (length stream)) e public_key stream s' (omega arith) in
      rw (run_session, ran)
        (continue-total (λ t. some (done tt, end_connection m async_send i public_key t)) r
          λ t. ((done tt, end_connection m async_send i public_key t), refl))

  -- For any bytes that the peer sends before it closes the connection, the fuel that `start` gives
  -- its loop is enough: the coroutine ends, throws, hangs at an operation that never completes, or
  -- is undefined.
  pub start-total :
      (e : Endian) (stream : Bytes) (connected : Bool) (socket channel : Option ℕ) (s : Server m)
      → (t : Outcome (Unit {0}) × Server m) × (start m async_send e stream connected socket channel
            s
          ≡ some t)
  unfolding start
  start-total e stream connected socket channel s =
      elim (Option-cases (async_read e2e_keys_raw_l stream)) [
        | inl short ↦ rw (short, start) (_, refl)
        | inr ((public_key, rest), full) ↦ elim (Bool-cases connected) [
          | inl reachable ↦
              rw (full, start, reachable)
                (login-total (run_session m async_send e public_key rest) _
                  (λ i t. run_session-total e public_key rest i t))
          | inr gone ↦ rw (full, start, gone) (_, refl)
        ]
      ]

  -- What the frames of a stream come to: each is forwarded if the coroutine goes on after the
  -- frame before it.
  unfoldable pub forward_all :
      Endian
      → Bytes
      → List (Bytes × Bytes)
      → (Server m → Option (Outcome (Unit {0}) × Server m))
      → Server m
      → Option (Outcome (Unit {0}) × Server m)
  forward_all e public_key [] next s = next s
  forward_all e public_key ((recipient, message) ∷ frames) next s =
      continue_with m async_send (forward_all e public_key frames next)
        (forward m async_send 2 recipient (queue_message e public_key message) s)

  abbrev pub stream_of : List (Bytes × Bytes) → Bytes → Bytes
  stream_of [] rest = rest
  stream_of ((recipient, message) ∷ frames) rest =
      frame_bytes recipient message ++ stream_of frames rest

  receive_frame :
      (n : ℕ) (e : Endian) (public_key recipient message rest : Bytes) (s : Server m)
      → IsFrame recipient message
      → receive_loop m async_send (suc n) e public_key (frame_bytes recipient message ++ rest) s
        ≡ continue_with m async_send
            (receive_loop m async_send n e public_key rest)
            (forward m async_send 2 recipient (queue_message e public_key message) s)
  unfolding receive_loop
  receive_frame n e public_key recipient message rest s h =
      rw (receive_loop, receive-frame_bytes e recipient message rest h) refl

  -- On a stream that begins with frames, with fuel for each of them and for the rest, the loop of a
  -- connection forwards the frames one after the other, in order and each under the sender's key,
  -- as long as the coroutine goes on, and then runs on the rest of the stream with the fuel left.
  pub receive_loop-forward_all :
      (n : ℕ) (e : Endian) (public_key : Bytes) (frames : List (Bytes × Bytes)) (rest : Bytes)
      (s : Server m)
      → All (λ f. IsFrame f.0 f.1) frames
      → receive_loop m async_send (length frames + n) e public_key (stream_of frames rest) s
        ≡ forward_all e public_key frames (receive_loop m async_send n e public_key rest) s
  unfolding forward_all
  receive_loop-forward_all n e public_key [] rest s h =
      ap (λ k. receive_loop m async_send k e public_key rest s) (omega arith)
  receive_loop-forward_all n e public_key ((recipient, message) ∷ frames) rest s h =
      ap
        (λ k.
          receive_loop m async_send k e public_key
            (frame_bytes recipient message ++ stream_of frames rest) s)
        (omega arith)
      ∙ receive_frame (length frames + n) e public_key recipient message (stream_of frames rest) s
          h.0
      ∙ ap
          (λ f.
            continue_with m async_send f
              (forward m async_send 2 recipient (queue_message e public_key message) s))
          (fun_ext (λ t. receive_loop-forward_all n e public_key frames rest t h.1))
