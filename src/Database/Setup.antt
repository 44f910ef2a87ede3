-- ===== src/Database/Setup.antt =====
-- `database::start` of core/database/database.cpp: connecting, making the tables, and starting the
-- loop that runs the statements. The library that connects is a parameter.
use mydak_server.Base.{
  ◌≡◌, refl, inl, inr, ◌⊎◌, true, false, Option, none, some, Option-cases, arith, Bytes,
}
use mydak_server.Task.{Outcome, done, threw, ◌>>◌, catch}
use mydak_server.Database.{Mariadb}
use mydak_server.Database.Operations.{Database}

-- The statements of `start`, in their order.
pub data Setup : Type 0 where
  -- CREATE DATABASE IF NOT EXISTS mydak_database; USE mydak_database;
  create_database use_database : Setup
  -- CREATE TABLE IF NOT EXISTS mydak_users(…); CREATE TABLE IF NOT EXISTS mydak_messages(…);
  create_users create_messages : Setup

-- What the client library does before the statements of the queue: it connects to the tables of a
-- server, or runs a statement on them. `none` is the exception that it throws.
pub record Connector (m : Mariadb) : Type 0 where
  pub connect : Bytes → Bytes → Bytes → Option m.Tables
  pub prepare : Setup → m.Tables → Option m.Tables

module _ (m : Mariadb) (connector : Connector m) where
  open connector use {connect, prepare}

  -- The connection is made.
  adopt_connection : Option m.Tables → Database m → Outcome (Unit {0}) × Database m
  adopt_connection none d = (threw, d)
  adopt_connection (some tables) d = (done tt, record d { tables = tables; connected = true })

  adopt : Option m.Tables → Database m → Outcome (Unit {0}) × Database m
  adopt none d = (threw, d)
  adopt (some tables) d = (done tt, record d { tables = tables })

  -- `connection.execute` of one statement.
  execute_setup : Setup → Database m → Outcome (Unit {0}) × Database m
  unfolding adopt
  execute_setup request d = adopt (prepare request d.tables) d

  -- `coh::detached(async_execute_queued_loop())`
  spawn_loop : Database m → Outcome (Unit {0}) × Database m
  spawn_loop d = (done tt, record d { running = true })

  -- The statements of `start` in its `try` block.
  make_tables : Bytes → Bytes → Bytes → Database m → Outcome (Unit {0}) × Database m
  unfolding adopt adopt_connection execute_setup spawn_loop
  make_tables hostname username password = do
    adopt_connection (connect hostname username password)
    execute_setup create_database
    execute_setup use_database
    execute_setup create_users
    execute_setup create_messages
    spawn_loop

  unfoldable pub start : Bytes → Bytes → Bytes → Database m → Outcome (Unit {0}) × Database m
  unfolding make_tables
  start hostname username password = catch (make_tables hostname username password) tt

  -- The tables after connecting and after each of the statements.
  pub record SetUp (hostname username password : Bytes) (last : m.Tables) : Type 0 where
    pub first : m.Tables
    pub created : m.Tables
    pub used : m.Tables
    pub with_users : m.Tables
    pub connected : connect hostname username password ≡ some first
    pub creates : prepare create_database first ≡ some created
    pub uses : prepare use_database created ≡ some used
    pub makes_users : prepare create_users used ≡ some with_users
    pub makes_messages : prepare create_messages with_users ≡ some last

  abbrev pub serving : m.Tables → Database m
  serving last = record { running = true; connected = true; tables = last }

  -- How `start` ends, whatever the library does.
  abbrev pub Started : Bytes → Bytes → Bytes → Database m → Type 0
  Started hostname username password d =
      ((last : m.Tables) × SetUp hostname username password last
        × (start hostname username password d ≡ (done tt, serving last)))
      ⊎ ((d' : Database m) × (start hostname username password d ≡ (done tt, d'))
          × (d'.running ≡ false)
          × (((connect hostname username password ≡ none) × (d' ≡ d))
              ⊎ ((first : m.Tables) × (connect hostname username password ≡ some first)
                  × (d'.connected ≡ true)))
          × ((last : m.Tables) → ¬ SetUp hostname username password last))

  -- Starting a database that does not run, whatever the client library does, completes in one of
  -- two ways: connecting and the four statements have succeeded in their order, the loop runs and
  -- the tables are those that the last statement left; or one of them has failed, which is not
  -- reported, and the loop does not run; the connection was made if connecting succeeded, and
  -- nothing has changed if it failed.
  pub start-Started :
      (hostname username password : Bytes) (d : Database m)
      → d.running ≡ false
      → Started hostname username password d
  unfolding start
  start-Started hostname username password d new =
      elim (Option-cases (connect hostname username password)) [
        | inl bad ↦
            inr
              (d, rw (bad, start) refl, new, inl (bad, refl), λ last h. ground (arith, h.connected))
        | inr (a, ea) ↦ elim (Option-cases (prepare create_database a)) [
          | inl bad ↦ inr (
            record d { tables = a; connected = true },
            rw (ea, start, bad) refl,
            new,
            inr (a, ea, refl),
            λ last h. ground (arith, h.connected, h.creates),
          )
          | inr (b, eb) ↦ elim (Option-cases (prepare use_database b)) [
            | inl bad ↦ inr (
              record d { tables = b; connected = true },
              rw (ea, start, eb, bad) refl,
              new,
              inr (a, ea, refl),
              λ last h. ground (arith, h.connected, h.creates, h.uses),
            )
            | inr (c, ec) ↦ elim (Option-cases (prepare create_users c)) [
              | inl bad ↦ inr (
                record d { tables = c; connected = true },
                rw (ea, start, eb, ec, bad) refl,
                new,
                inr (a, ea, refl),
                λ last h. ground (arith, h.connected, h.creates, h.uses, h.makes_users),
              )
              | inr (e, ee) ↦ elim (Option-cases (prepare create_messages e)) [
                | inl bad ↦ inr (
                  record d { tables = e; connected = true },
                  rw (ea, start, eb, ec, ee, bad) refl,
                  new,
                  inr (a, ea, refl),
                  λ last h.
                      ground
                        (arith, h.connected, h.creates, h.uses, h.makes_users, h.makes_messages),
                )
                | inr (f, ef) ↦ inl (
                  f,
                  record {
                    first = a;
                    created = b;
                    used = c;
                    with_users = e;
                    connected = ea;
                    creates = eb;
                    uses = ec;
                    makes_users = ee;
                    makes_messages = ef;
                  },
                  rw (ea, start, eb, ec, ee, ef) refl,
                )
              ]
            ]
          ]
        ]
      ]
