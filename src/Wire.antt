-- ===== src/Wire.antt =====
-- The bytes that core/main/connection.cpp reads and queues. A stream is the list of bytes that the
-- peer still sends before it closes the connection; a byte is a number below 256.
pub mod Size
pub mod Frame
pub mod Queued
use mathlib.Core.List.{reverse}
use mydak_server.Base.{
  ℕ, zero, suc, ◌+◌, ◌*◌, ◌/◌, ◌%◌, ◌<◌, ◌==◌, List, [], ◌∷◌, ◌++◌, Bool, not, ◌||◌, Option, none,
  some, ltb, if◌then◌else◌, Bytes, length, take, drop,
}
use mydak_server.Proto.{
  e2e_keys_raw_l, message_size_l, greetings_prefix, greetings_prefix_l, min_message_size,
  max_message_size, greetings_l,
}

-- `std::endian::native`
pub data Endian : Type 0 where
  little big : Endian

-- The number with the given bytes, the least significant first, and the `k` low bytes of a number.
unfoldable pub from_bytes : Bytes → ℕ
from_bytes [] = 0
from_bytes (b ∷ bs) = b + 256 * from_bytes bs

unfoldable pub to_bytes : ℕ → ℕ → Bytes
to_bytes zero n = []
to_bytes (suc k) n = n % 256 ∷ to_bytes k (n / 256)

-- A `uint32_t` in the memory of the machine, and back.
unfoldable pub store : Endian → ℕ → Bytes
store Endian.little n = to_bytes message_size_l n
store Endian.big n = reverse (to_bytes message_size_l n)

unfoldable pub load : Endian → Bytes → ℕ
load Endian.little bs = from_bytes bs
load Endian.big bs = from_bytes (reverse bs)

-- `std::byteswap` of a `uint32_t`.
unfoldable pub byteswap : ℕ → ℕ
byteswap n = from_bytes (reverse (to_bytes message_size_l n))

-- The `if constexpr` around `std::byteswap`, the same for reading and for writing.
unfoldable pub swap_if_big : Endian → ℕ → ℕ
swap_if_big Endian.little n = n
swap_if_big Endian.big n = byteswap n

-- `message_size`, copied from the greetings.
unfoldable pub message_size : Endian → Bytes → ℕ
message_size e greetings = swap_if_big e (load e (take message_size_l (drop 1 greetings)))

-- `size`, the first bytes of a queued message.
unfoldable pub size_bytes : Endian → ℕ → Bytes
size_bytes e n = store e (swap_if_big e n)

-- `asio::async_read` of exactly `n` bytes; `none` is the exception at the end of the stream.
unfoldable pub async_read : ℕ → Bytes → Option (Bytes × Bytes)
async_read n stream = if ltb (length stream) n then none else some (take n stream, drop n stream)

-- How one round of the loop of `connection::start` ends before a message is sent on.
pub data Received : Type 0 where
  read_failed bad_prefix : Received
  bad_size : ℕ → Received
  frame : Bytes → Bytes → Bytes → Received

starts_with_prefix : Bytes → Bool
starts_with_prefix [] = greetings_prefix == 0
starts_with_prefix (b ∷ bs) = b == greetings_prefix

-- The second read, of the message itself. The recipient is what follows the size.
receive_message : ℕ → Bytes → Bytes → Received
receive_message size greetings stream = elim (async_read size stream) [
  | none ↦ Received.read_failed
  | some (message, rest) ↦
      Received.frame (drop (greetings_prefix_l + message_size_l) greetings) message rest
]

receive_greetings : Endian → Bytes → Bytes → Received
unfolding receive_message starts_with_prefix
receive_greetings e greetings stream =
    let size = message_size e greetings in
    if not (starts_with_prefix greetings)
    then Received.bad_prefix
    else if ltb size min_message_size || ltb max_message_size size
    then Received.bad_size size
    else receive_message size greetings stream

unfoldable pub receive : Endian → Bytes → Received
unfolding receive_greetings
receive e stream = elim (async_read greetings_l stream) [
  | none ↦ Received.read_failed
  | some (greetings, rest) ↦ receive_greetings e greetings rest
]

-- `queued_message`: [message size][public key of the sender][message]
unfoldable pub queue_message : Endian → Bytes → Bytes → Bytes
unfolding size_bytes
queue_message e public_key message = size_bytes e (length message) ++ (public_key ++ message)
