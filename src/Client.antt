-- ===== src/Client.antt =====
-- core/main/client.hpp and client.cpp: a connected client. Sockets and channels are numbers, and
-- null pointers `none`. `messages` is shared by pointer, so it is an index into a heap of queues.
use mydak_server.Base.{
  ℕ, Bool, true, false, not, ◌&&◌, List, [], ◌∷◌, ◌++◌, Option, none, some, if◌then◌else◌, Bytes,
  length, modify,
}

-- The queues that `std::make_shared` has made, oldest message first.
abbrev pub Heap : Type 0
Heap = List (List Bytes)

pub record ClientData : Type 0 where
  pub socket : Option ℕ
  pub messages : Option ℕ
  pub signal_channel : Option ℕ

pub record Client : Type 0 where
  pub active : Bool
  pub client_data : ClientData

-- `std::make_shared<std::queue<std::vector<char>>>()`
unfoldable pub make_queue : Heap → ℕ × Heap
make_queue queues = (length queues, queues ++ [] ∷ [])

-- The constructor `client(socket, signal_channel)`.
unfoldable pub make_client : Option ℕ → Option ℕ → Heap → Client × Heap
unfolding make_queue
make_client socket signal_channel queues =
    let (messages, queues') = make_queue queues in
    (
      record {
        active = true;
        client_data = record {
          socket = socket;
          messages = some messages;
          signal_channel = signal_channel;
        };
      },
      queues',
    )

is_null : Option ℕ → Bool
is_null none = true
is_null (some p) = false

-- The queue that `add_client_data` leaves in place, or a new one.
queue_or_new : Option ℕ → Heap → ℕ × Heap
unfolding make_queue
queue_or_new none queues = make_queue queues
queue_or_new (some p) queues = (p, queues)

-- The messages to the log are left out, here and below.
unfoldable pub add_client_data : Option ℕ → Option ℕ → Client → Heap → Client × Heap
unfolding queue_or_new
add_client_data socket signal_channel c queues =
    let (messages, queues') = queue_or_new c.client_data.messages queues in
    if not c.active
    then (
      record {
        active = true;
        client_data = record {
          socket = socket;
          messages = some messages;
          signal_channel = signal_channel;
        };
      },
      queues',
    )
    else (c, queues)

push_to : Option ℕ → Bytes → Heap → Heap
push_to none message queues = queues
push_to (some p) message queues = modify (λ q. q ++ message ∷ []) queues p

unfoldable pub add_message : Bytes → Client → Heap → Heap
unfolding is_null push_to
add_message message c queues =
    if not (is_null c.client_data.messages) && c.active
    then push_to c.client_data.messages message queues
    else queues

unfoldable pub remove_client : Client → Client
remove_client c = record {
  active = false;
  client_data = record { socket = none; messages = none; signal_channel = none };
}

unfoldable pub get_client_data : Client → ClientData
get_client_data c = c.client_data
