-- ===== src/Wire/Queued.antt =====
-- What a recipient reads from its socket: queued messages one after the other.
use mathlib.Core.List.{append_assoc}
use mydak_server.Base.{
  ◌+◌, ◌^◌, ◌<◌, ◌≡◌, ap, sym, ◌∙◌, ◌++◌, arith, Bytes, length, length-append, append-injective,
}
use mydak_server.Proto.{e2e_keys_raw_l}
use mydak_server.Wire.{Endian, from_bytes, to_bytes, queue_message}
use mydak_server.Wire.Size.{from_bytes-to_bytes, length-to_bytes, size_bytes-to_bytes}

-- A queued message is 36 bytes longer than the message: the size that the source reserves.
pub length-queue_message :
    (e : Endian) (key message : Bytes)
    → length key ≡ e2e_keys_raw_l
    → length (queue_message e key message) ≡ 36 + length message
unfolding queue_message
length-queue_message e key message h = omega (
  arith,
  ap length (size_bytes-to_bytes e (length message)),
  length-append (to_bytes 4 (length message)) (key ++ message),
  length-append key message,
  length-to_bytes 4 (length message),
  ap (λ t. length (t ++ (key ++ message))) (size_bytes-to_bytes e (length message)),
)

regroup :
    (e : Endian) (key message rest : Bytes)
    → queue_message e key message ++ rest
      ≡ to_bytes 4 (length message) ++ (key ++ (message ++ rest))
unfolding queue_message
regroup e key message rest = simp (size_bytes-to_bytes, append_assoc)

-- Two streams that begin with queued messages and are equal agree on the sender's key, the message
-- and all that follows, whatever the byte orders of the machines that queued them, if the keys have
-- 32 bytes and the messages fewer than 2^32.
pub queue_message-injective :
    (e e' : Endian) (key key' message message' rest rest' : Bytes)
    → length key ≡ e2e_keys_raw_l
    → length key' ≡ e2e_keys_raw_l
    → length message < 2 ^ 32
    → length message' < 2 ^ 32
    → queue_message e key message ++ rest ≡ queue_message e' key' message' ++ rest'
    → (key ≡ key') × (message ≡ message') × (rest ≡ rest')
unfolding queue_message
queue_message-injective e e' key key' message message' rest rest' hk hk' hm hm' h =
    let n = length message in
    let n' = length message' in
    let regrouped = sym (regroup e key message rest) ∙ h ∙ regroup e' key' message' rest' in
    let (size, tail) =
      append-injective (to_bytes 4 n) _ (to_bytes 4 n') _
        (omega (arith, length-to_bytes 4 n, length-to_bytes 4 n')) regrouped in
    let same : n ≡ n' =
      sym (from_bytes-to_bytes n hm) ∙ ap from_bytes size ∙ from_bytes-to_bytes n' hm' in
    let (keys, body) = append-injective key _ key' _ (omega arith) tail in
    let (messages, rests) = append-injective message rest message' rest' same body in
    (keys, messages, rests)
