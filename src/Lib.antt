-- ===== src/Lib.antt =====
-- A model of the message server in core/: clients log in over TCP with a public key, send frames to
-- other keys, and messages for clients that are offline wait in MariaDB.
--
-- The parts and their files:
--   * ClientIndex, Slot, SlotVector: core/util/indices.hpp, slot.hpp, slot_vector.hpp. A slot vector
--     keeps the clients; a handle is an index with a generation. SlotVector/Vacancies is about the
--     queue of empty slots, SlotVector/Stale about handles that outlive their client, SlotVector/Doubled
--     about slots that are popped while they are empty.
--   * Proto, Wire: core/util/proto.hpp and the bytes that core/main/connection.cpp reads and queues.
--     A stream is the list of bytes that the peer sends until it closes. Wire/Size, Wire/Frame and
--     Wire/Queued are about the size field, the frames and the queued messages.
--   * Task: the outcome of a coroutine. It goes on, throws, hangs or is undefined.
--   * Database: core/database/database.hpp and database.cpp. Database/Queue is the queue of
--     statements with its loop (`add_request`, `async_execute_queued_loop`), a machine whose events
--     are requests and turns of the loop in any order. Database/Operations has the coroutines that
--     send statements (`add_user`, `add_message` and so on) as their caller sees them,
--     Database/Queue/Storage is about what was stored and a later selection, and Database/Setup has
--     `start`, which makes the tables and starts the loop.
--   * Client: core/main/client.hpp and client.cpp, with a heap of message queues.
--   * Server: core/main/server.hpp and server.cpp, the slot vector, the map from keys to handles and
--     the database together. Server/Registry and Server/Departure are about logging in and leaving,
--     Server/Delivery and Server/Delayed about sending. Server/Writer is `socket_coroutine`, a
--     machine whose events are added messages, signals and the ends of writes. Server/Logins has any
--     number of connections that log in and end, a machine whose events are the keys that peers send,
--     the answers of the database and the ends of connections. Server/Bystanders is about the
--     operations that leave the registry alone. Server/Accept is the loop that accepts connections.
--   * Connection: core/main/connection.hpp and connection.cpp, the coroutine of one connection, which
--     calls the server. Connection/Session is about its loop, Connection/Forward about one message,
--     Connection/Return about a recipient that comes back, Connection/Endings about peers that close
--     early or log in twice, and Connection/Lifetime about the whole coroutine.
--     Connection/Bystanders is about its loop and the registry, and Connection/Arrival follows
--     messages from the frames of a sender to the socket of a recipient, a machine in which the
--     sender is suspended until its signal is received. Connection/Traffic has any
--     number of connections with their messages, a machine whose events are those of Server/Logins,
--     messages that are sent to a key, messages that a connection adds to its own queue in
--     `send_delayed_messages`, and writes. Connection/Traffic/Safety is about all queues and
--     Connection/Traffic/Inbox about that of one connection. Connection/Misdelivery is about a
--     client that has lost its slot to another.
--   * StaticMap, Hash, Hex: core/util/tools.hpp. StaticMap has the static map and the templates for
--     texts and indices, StaticMap/Lookup, StaticMap/Sorted and StaticMap/Indices are about its searches in any sorted array, Hash has the
--     hash of keys, and Hex the conversions to hexadecimal text and back.
--   * ParameterTable, Parameters: the table of options in core/parameters and the command line, which
--     `server` reads the database's host, user and password from. Parameters/Access reads a value by
--     its type, Parameters/Refusals is about command lines that are refused, with the messages in
--     ParameterText, Parameters/Limits, Parameters/Overrides and Parameters/Typing are about accepted
--     command lines. Decimal has the numbers in their texts, Parameters/Numbers is about numeric
--     options, Parameters/Help has the lines that `help` prints. Server/Construction is the
--     constructor of `server`, from the command line to the database.
--   * Logger: core/util/logger.hpp and logger.cpp, which the other parts write their messages with.
--     Logger/Names is about the names of functions, Logger/Levels about builds with and without
--     debugging. The calls of the logger in the other parts are left out of their models.
--   * Main: core/main.cpp, the whole program. The constructor of the server, the loop that accepts and
--     the connections are put together, a machine whose events are the ends of accepts and those of
--     Connection/Traffic. OptionalRef is core/util/optional_ref.hpp.
--   * Tests: a database in memory, a server on it, and the theorems at concrete inputs.
-- Base has the shared names, and lemmas on lists and maps.
--
-- Numbers: `std::size_t` and `std::uint64_t` are natural numbers; the generation of a slot and the
-- counter of the vector wrap at 2^64 as they do in the source. Sockets and channels are numbers.
--
-- Fuel: `receive_loop` takes fuel, one more than the length of the stream in `start`. Each round
-- takes at least one byte off the stream, so it is enough.
--
-- Parameters: MariaDB with Boost.MySQL is a function that runs one statement on the tables or
-- throws (`Mariadb`), with the documented behaviour as laws (`Documented`), which the database in
-- memory satisfies. Boost.Asio is what `async_send` on a channel comes to; a read of n bytes throws
-- if fewer are left. The channel of a client has no buffer, so that a send ends only when the
-- coroutine of the client's socket receives; for one run of one coroutine what each send comes to
-- is given, in Connection/Traffic each event has its own, and in Connection/Arrival it follows. A coroutine of the server runs without others in between, except in
-- Database/Queue, Server/Writer, Server/Logins, Connection/Traffic, Connection/Arrival and Main. `make_address` of
-- Boost.Asio is a test on texts. The functions that read and write numbers, `std::to_chars` and
-- `std::from_chars`, are those of the standard library; its hash of a character is a function on
-- numbers. What the client library does to connect and to make the tables is a `Connector`. The two
-- conversions of libsodium are a parameter (`Sodium`), with what is documented of them as laws.
--
-- Not modelled: what nothing calls and only the compiler sees, as the concepts of templates, and in
-- core/util/coh.hpp the functions `future`. Peers that close before their key is read, or whose
-- address cannot be read, are in Connection/Endings and Connection/Misdelivery, and not among the
-- events of Server/Logins, Connection/Traffic and Main.
pub mod Base
pub mod OptionalRef
pub mod ClientIndex
pub mod Slot
pub mod SlotVector
pub mod Proto
pub mod Wire
pub mod Task
pub mod Database
pub mod Client
pub mod Server
pub mod Connection
pub mod StaticMap
pub mod Decimal
pub mod Hash
pub mod ParameterTable
pub mod ParameterText
pub mod Hex
pub mod Parameters
pub mod Logger
pub mod Main
pub mod Tests
