-- ===== src/Database/Operations.antt =====
-- The coroutines of core/database/database.cpp, as one caller sees them while no other is at work:
-- `Database.Queue` shows what the queue makes of many.
pub mod Tables
pub mod Users
pub mod Messages
use mydak_server.Base.{
  ℕ, ◌-◌, Bool, true, false, List, [], ◌∷◌, Option, none, some, ltb, ◌||◌, if◌then◌else◌, word,
  Bytes,
}
use mydak_server.Task.{Outcome, done, threw, hung, and_then, ◌>>=◌, ◌>>◌, pure, on_throw, catch}
use mydak_server.Database.{
  Request, Results, DbMessage, Mariadb, insert_user, select_user, insert_message, select_messages,
  delete_messages,
}

module _ (m : Mariadb) where
  -- `running`: `async_execute_queued_loop` has not ended. `connected`: the connection was made.
  pub record Database : Type 0 where
    pub running : Bool
    pub connected : Bool
    pub tables : m.Tables

  -- The statement is put in the queue and the coroutine suspends. If the statement fails, the
  -- exception ends the loop, and the coroutine waits for a signal that never comes.
  execute_running : Option (Results × m.Tables) → Database → Outcome Results × Database
  execute_running none d = (hung, record d { running = false })
  execute_running (some (result, tables)) d = (done result, record d { tables = tables })

  unfoldable pub async_execute_queued : Request → Database → Outcome Results × Database
  unfolding execute_running
  async_execute_queued r d =
      if d.running then execute_running (m.execute r d.tables) d else (hung, d)

  -- The character set is known once the connection was made. The loop runs only then.
  abbrev pub has_format_opts : Database → Bool
  has_format_opts d = d.running || d.connected

  -- The statement is formatted first: `connection.format_opts().value()` throws if the connection
  -- was never made.
  unfoldable pub execute_formatted : Request → Database → Outcome Results × Database
  execute_formatted r d = if has_format_opts d then async_execute_queued r d else (threw, d)

  execute_now : Option (Results × m.Tables) → Database → Outcome Results × Database
  execute_now none d = (threw, d)
  execute_now (some (result, tables)) d = (done result, record d { tables = tables })

  -- `connection.execute`, which does not go through the queue.
  execute_at_once : Request → Database → Outcome Results × Database
  unfolding execute_now
  execute_at_once r d =
      if has_format_opts d then execute_now (m.execute r d.tables) d else (threw, d)

  -- `result.rows().at(0).at(0).as_uint64()`
  first_id : List ℕ → Database → Outcome ℕ × Database
  first_id [] d = (threw, d)
  first_id (id ∷ ids) d = (done id, d)

  -- `add_user` after its INSERT: the new row's id, or that of the row which was there.
  user_id : Bytes → Results → Database → Outcome ℕ × Database
  unfolding first_id execute_formatted
  user_id public_key result =
      if ltb 0 result.affected_rows
      then pure result.last_insert_id
      else (execute_formatted (select_user public_key) >>= λ found. first_id found.ids)

  unfoldable pub add_user : Bytes → Database → Outcome ℕ × Database
  unfolding user_id execute_formatted
  add_user public_key =
      catch (do result ← execute_formatted (insert_user public_key); user_id public_key result)
        (word - 1)

  unfoldable pub add_message : ℕ → Bytes → Database → Outcome (Unit {0}) × Database
  unfolding execute_formatted
  add_message index message =
      catch (do execute_formatted (insert_message index message); pure tt) tt

  unfoldable pub get_delayed_messages : ℕ → Database → Outcome (List DbMessage) × Database
  unfolding execute_formatted
  get_delayed_messages db_index =
      catch (do result ← execute_formatted (select_messages db_index); pure result.messages) []

  unfoldable pub delete_delayed_messages : List ℕ → Database → Outcome (Unit {0}) × Database
  unfolding execute_formatted
  delete_delayed_messages [] = pure tt
  delete_delayed_messages (id ∷ ids) =
      catch (do execute_formatted (delete_messages (id ∷ ids)); pure tt) tt

  unfoldable pub get_db_index : Bytes → Database → Outcome ℕ × Database
  unfolding execute_at_once first_id
  get_db_index public_key =
      catch (do result ← execute_at_once (select_user public_key); first_id result.ids) 0
