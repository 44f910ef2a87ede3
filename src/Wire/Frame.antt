-- ===== src/Wire/Frame.antt =====
-- The loop of `connection::start` accepts exactly the frames of the protocol.
use mathlib.Core.List.{append_assoc}
use mathlib.Core.Path.{subst}
use mydak_server.Base.{
  ℕ, ◌≤◌, ◌<◌, ◌≡◌, refl, ap, ◌∙◌, [], ◌∷◌, ◌++◌, some, arith, Bytes, All-of_append, Option-cases,
  inl, inr, length, length-append, length-take, take-append, drop-append, take-append-drop,
}
use mydak_server.Proto.{
  greetings_prefix, e2e_keys_raw_l, min_message_size, max_message_size, greetings_l,
}
use mydak_server.Wire.{
  Endian, Received, from_bytes, to_bytes, message_size, async_read, receive_greetings,
  receive_message, receive,
}
use mydak_server.Wire.Size.{
  AreBytes, from_bytes-to_bytes, to_bytes-from_bytes, length-to_bytes, to_bytes-AreBytes,
  message_size-from_bytes,
}

-- A frame as a client writes it: GREETINGS [0x67][message size][recipient], then the message.
abbrev pub frame_bytes : Bytes → Bytes → Bytes
frame_bytes recipient message =
    greetings_prefix ∷ to_bytes 4 (length message) ++ (recipient ++ message)

-- What the protocol allows in a frame.
pub record IsFrame (recipient message : Bytes) : Type 0 where
  pub key_size : length recipient ≡ e2e_keys_raw_l
  pub not_short : min_message_size ≤ length message
  pub not_long : length message ≤ max_message_size

pub async_read-append :
    (xs ys : Bytes) (n : ℕ) → length xs ≡ n → async_read n (xs ++ ys) ≡ some (xs, ys)
unfolding async_read
async_read-append xs ys n h =
    rw (← h) (ground (arith, length-append xs ys, take-append xs ys, drop-append xs ys))

-- What a successful read returns: the first `n` bytes, and the rest.
async_read-inv :
    (n : ℕ) (stream xs ys : Bytes)
    → async_read n stream ≡ some (xs, ys)
    → (length xs ≡ n) × (stream ≡ xs ++ ys)
unfolding async_read
async_read-inv n stream xs ys h = ground (arith, length-take n stream, take-append-drop n stream)

receive_greetings-frame :
    (e : Endian) (recipient message rest : Bytes)
    → IsFrame recipient message
    → receive_greetings e
        (greetings_prefix ∷ to_bytes 4 (length message) ++ recipient)
        (message ++ rest)
      ≡ Received.frame recipient message rest
unfolding receive_greetings to_bytes
receive_greetings-frame e recipient message rest h =
    let n = length message in
    let size : message_size e (greetings_prefix ∷ to_bytes 4 n ++ recipient) ≡ length message =
      message_size-from_bytes e greetings_prefix _ _ _ _ recipient (to_bytes-AreBytes 4 n)
      ∙ from_bytes-to_bytes n (omega arith) in
    rw size (ground (arith, async_read-append message rest (length message) refl))

-- On a machine of either byte order, a reader at a frame whose recipient has 32 bytes and whose
-- message has from 1 to 1024 bytes takes exactly that recipient and message off the stream and
-- leaves what follows.
pub receive-frame_bytes :
    (e : Endian) (recipient message rest : Bytes)
    → IsFrame recipient message
    → receive e (frame_bytes recipient message ++ rest) ≡ Received.frame recipient message rest
unfolding receive
receive-frame_bytes e recipient message rest h =
    let greetings : Bytes = greetings_prefix ∷ to_bytes 4 (length message) ++ recipient in
    let size : length greetings ≡ greetings_l = omega (
      arith,
      length-append (to_bytes 4 (length message)) recipient,
      length-to_bytes 4 (length message),
      h.key_size,
    ) in
    rw
      (
        regroup recipient message rest,
        async_read-append greetings (message ++ rest) greetings_l size,
        receive,
      )
      (receive_greetings-frame e recipient message rest h)
  where
    regroup :
        (r m t : Bytes)
        → frame_bytes r m ++ t ≡ (greetings_prefix ∷ to_bytes 4 (length m) ++ r) ++ (m ++ t)
    regroup r m t = simp append_assoc

greetings-inv :
    (e : Endian) (p a b c d : ℕ) (key stream recipient message rest : Bytes)
    → AreBytes (a ∷ b ∷ c ∷ d ∷ [])
    → receive_greetings e (p ∷ a ∷ b ∷ c ∷ d ∷ key) stream ≡ Received.frame recipient message rest
    → (p ≡ greetings_prefix)
      × (key ≡ recipient)
      × (length message ≡ from_bytes (a ∷ b ∷ c ∷ d ∷ []))
      × (stream ≡ message ++ rest)
      × (min_message_size ≤ length message)
      × (length message ≤ max_message_size)
unfolding receive_greetings
greetings-inv e p a b c d key stream recipient message rest bytes h =
    let n = from_bytes (a ∷ b ∷ c ∷ d ∷ []) in
    elim (Option-cases (async_read n stream)) [
      | inl short ↦ absurd (ground (arith, message_size-from_bytes e p a b c d key bytes))
      | inr ((xs, ys), full) ↦
          ground (
            arith,
            message_size-from_bytes e p a b c d key bytes,
            async_read-inv n stream xs ys full,
          )
    ]

frame_of :
    (e : Endian) (greetings stream recipient message rest : Bytes)
    → AreBytes greetings
    → length greetings ≡ greetings_l
    → receive_greetings e greetings stream ≡ Received.frame recipient message rest
    → (greetings ++ stream ≡ frame_bytes recipient message ++ rest) × IsFrame recipient message
frame_of e (p ∷ a ∷ b ∷ c ∷ d ∷ key) stream recipient message rest bytes size h =
    let word = a ∷ b ∷ c ∷ d ∷ [] in
    let (prefix, same, n, split, lo, hi) =
      greetings-inv e p a b c d key stream recipient message rest (omega arith) h in
    let field : to_bytes 4 (length message) ≡ word =
      rw n (to_bytes-from_bytes word (omega arith)) in
    (
      cc (field, prefix, same, split, append_assoc recipient message rest),
      record { key_size = rw (← same) (omega arith); not_short = lo; not_long = hi },
    )
frame_of e greetings stream recipient message rest bytes size h = absurd (omega arith)

-- If the numbers of a stream are bytes and a reader takes a frame off it, then the stream begins
-- with the encoding of that frame, followed by what the reader leaves, the recipient has 32 bytes
-- and the message from 1 to 1024.
pub receive-inv :
    (e : Endian) (stream recipient message rest : Bytes)
    → AreBytes stream
    → receive e stream ≡ Received.frame recipient message rest
    → (stream ≡ frame_bytes recipient message ++ rest) × IsFrame recipient message
unfolding receive
receive-inv e stream recipient message rest bytes h =
    elim (Option-cases (async_read greetings_l stream)) [
      | inl short ↦ absurd (ground arith)
      | inr ((greetings, tail), full) ↦
          let (size, split) = async_read-inv greetings_l stream greetings tail full in
          let (whole, fits) =
            frame_of e greetings tail recipient message rest
              (All-of_append _ greetings tail (subst AreBytes split bytes)) size (ground arith) in
          (split ∙ whole, fits)
    ]

-- A round that takes a frame leaves a shorter stream.
pub receive-shrinks :
    (e : Endian) (stream recipient message rest : Bytes)
    → receive e stream ≡ Received.frame recipient message rest
    → length rest < length stream
unfolding receive receive_greetings receive_message
receive-shrinks e stream recipient message rest h =
    elim (Option-cases (async_read greetings_l stream)) [
      | inl short ↦ absurd (ground arith)
      | inr ((greetings, tail), full) ↦
          let (size, split) = async_read-inv greetings_l stream greetings tail full in
          let n = message_size e greetings in
          elim (Option-cases (async_read n tail)) [
            | inl short ↦ absurd (ground arith)
            | inr ((xs, ys), read) ↦
                let (_, split') = async_read-inv n tail xs ys read in
                let same : ys ≡ rest = ground arith in
                omega (
                  arith,
                  ap length split,
                  ap length split',
                  ap length same,
                  length-append greetings tail,
                  length-append xs ys,
                )
          ]
    ]
