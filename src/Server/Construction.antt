-- ===== src/Server/Construction.antt =====
-- The constructor of core/main/server.hpp, from the command line to the database. The acceptor is
-- taken to listen.
use mydak_server.Base.{
  ℕ, ◌≡◌, ◌⊎◌, Bool, false, List, [], Option, none, some, Bytes, find, word, ◌-◌,
}
use mydak_server.Task.{done, hung}
use mydak_server.SlotVector.{no_slots}
use mydak_server.Database.{Mariadb}
use mydak_server.Database.Operations.{Database}
use mydak_server.ClientIndex.{ClientIndex}
use mydak_server.Database.Setup.{Connector, SetUp, serving, start}
use mydak_server.Server.{Server, add_client}
use mydak_server.Server.Registry.{IsServing}
use mydak_server.ParameterTable.{ParameterVariants, db_hostname, db_username, db_password}
use mydak_server.Parameters.{Processed, returns, and_process, process_args}
use mydak_server.Parameters.Access.{Value, text_value, get}

module _ (make_address : Bytes → Bool) (m : Mariadb) (connector : Connector m) where
  abbrev pub new_server : Database m → Server m
  new_server db = record {
    clients = no_slots;
    client_indices = [];
    queues = [];
    writers = [];
    db = db;
  }

  -- The body of the constructor, with the values of the three options; `none` is the exception of
  -- `std::get`. A number is not a text, and does not compile.
  start_server : Option Value → Option Value → Option Value → m.Tables → Option (Server m)
  start_server (some (text_value hostname)) (some (text_value username))
        (some (text_value password)) tables =
      some (
        new_server
          (start m connector hostname username password
            (record { running = false; connected = false; tables = tables })).1)
  start_server _ _ _ tables = none

  -- `tables` stands for the tables before the connection is opened.
  pub make_server : List Bytes → m.Tables → Processed (Option (Server m))
  make_server args tables = and_process (process_args make_address args) λ ps.
      returns (start_server (get db_hostname ps) (get db_username ps) (get db_password ps) tables)

  -- The login of a key completes with the row -1, which is 2^64 - 1, and leaves the database alone.
  abbrev pub IsRowless : Bytes → Option ℕ → Option ℕ → Server m → Type 0
  IsRowless k socket channel s =
      (i : ClientIndex) × (s' : Server m) × (add_client m k socket channel s ≡ (done i, s'))
      × (i.db_index ≡ word - 1)
      × (find k s'.client_indices ≡ some i)
      × (s'.db ≡ s.db)

  -- How the client library connects with the texts of the three options.
  abbrev pub Connects : List ParameterVariants → Option m.Tables → Type 0
  Connects ps r =
      (hostname username password : Bytes) × (get db_hostname ps ≡ some (text_value hostname))
      × (get db_username ps ≡ some (text_value username))
      × (get db_password ps ≡ some (text_value password))
      × (connector.connect hostname username password ≡ r)

  -- What a server is after its construction.
  abbrev pub IsConstructed : List ParameterVariants → Server m → Type 0
  IsConstructed ps s =
      ((hostname username password : Bytes) × (last : m.Tables) × (get db_hostname ps
          ≡ some (text_value hostname))
        × (get db_username ps ≡ some (text_value username))
        × (get db_password ps ≡ some (text_value password))
        × SetUp m connector hostname username password last
        × (s.db ≡ serving m connector last)
        × IsServing m s)
      ⊎ (Connects ps none × ((k : Bytes) (socket channel : Option ℕ) → IsRowless k socket channel s)
          ⊎ ((first : m.Tables) × Connects ps (some first)
              × ((k : Bytes) (socket channel : Option ℕ)
                  → (s' : Server m) × (add_client m k socket channel s ≡ (hung, s')))))
