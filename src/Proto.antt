-- ===== src/Proto.antt =====
-- core/util/proto.hpp: the constants of the protocol.
use mydak_server.Base.{ℕ, ◌+◌, ◌*◌}

abbrev pub e2e_keys_raw_l : ℕ
e2e_keys_raw_l = 32

abbrev pub e2e_keys_hex_l : ℕ
e2e_keys_hex_l = e2e_keys_raw_l * 2

abbrev pub message_size_l : ℕ
message_size_l = 4

abbrev pub greetings_prefix : ℕ
greetings_prefix = 0x67

abbrev pub greetings_prefix_l : ℕ
greetings_prefix_l = 1

abbrev pub min_message_size : ℕ
min_message_size = 1

abbrev pub max_message_size : ℕ
max_message_size = 1024

-- The size of the `greetings` array of core/main/connection.cpp.
abbrev pub greetings_l : ℕ
greetings_l = greetings_prefix_l + message_size_l + e2e_keys_raw_l
