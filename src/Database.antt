-- ===== src/Database.antt =====
-- core/database/database.hpp and database.cpp. MariaDB and its client library are a parameter:
-- `execute` runs one statement of the source, and `none` is the exception that the library throws.
pub mod Queue
pub mod Operations
pub mod Setup
use mydak_server.Base.{ℕ, List, Option, Bytes}

-- A row of `mydak_messages`.
pub record DbMessage : Type 0 where
  pub content : Bytes
  pub db_index : ℕ

-- The statements that database.cpp sends once the tables are made.
pub data Request : Type 0 where
  -- INSERT IGNORE INTO mydak_users (public_key) VALUES ({})
  insert_user : Bytes → Request
  -- SELECT id FROM mydak_users WHERE public_key = {}
  select_user : Bytes → Request
  -- INSERT INTO mydak_messages (user_id, data) VALUES ({}, {});
  insert_message : ℕ → Bytes → Request
  -- SELECT data, id FROM mydak_messages WHERE user_id = {} ORDER BY id ASC;
  select_messages : ℕ → Request
  -- DELETE from mydak_messages WHERE id IN ({})
  delete_messages : List ℕ → Request

-- What the source reads of a `mysql::results`. `ids` are the rows of a selection of one number,
-- `messages` those of a selection of messages.
pub record Results : Type 0 where
  pub affected_rows : ℕ
  pub last_insert_id : ℕ
  pub ids : List ℕ
  pub messages : List DbMessage

-- The database server behind the connection.
pub record Mariadb : Type 1 where
  pub Tables : Type 0
  pub execute : Request → Tables → Option (Results × Tables)
