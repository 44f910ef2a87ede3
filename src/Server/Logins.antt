-- ===== src/Server/Logins.antt =====
-- Many connections at once, as far as the registry of core/main/server.cpp goes. All coroutines run
-- on one thread, so that they interleave only where they wait: `add_client` waits once, for
-- `db.add_user`, and a connection waits in its loop until it ends.
pub mod Orderly
pub mod Finish
pub mod Leave
pub mod Safety
pub mod Race
use mydak_server.Base.{
  ℕ, List, [], ◌∷◌, ◌++◌, Bool, true, false, Option, none, some, Bytes, get_elem?, modify,
  if◌then◌else◌, ◌>>=◌,
}
use mydak_server.Task.{Outcome, done, threw, hung, undefined, and_then}
use mydak_server.ClientIndex.{ClientIndex, empty_index}
use mydak_server.Database.{Mariadb}
use mydak_server.Server.{Server, is_known, enter_client, admit_client, remove_client}

-- What the coroutine of a connection waits for: the row of its key in `add_user`, or the next frame,
-- with the handle that `add_client` has returned. `gone` is a connection that has ended.
pub data Phase : Type 0 where
  asking : Bytes → Option ℕ → Option ℕ → Phase
  online : Bytes → ClientIndex → Phase
  gone : Phase

-- A peer sends its key; the database answers a connection; a connection that has logged in ends.
-- Peers that close before, or whose address cannot be read, are not among them.
pub data LoginEvent : Type 0 where
  connects : Bytes → Option ℕ → Option ℕ → LoginEvent
  answered : ℕ → ℕ → LoginEvent
  ends : ℕ → LoginEvent

module _ (m : Mariadb) where
  pub record Logins : Type 0 where
    pub server : Server m
    pub connections : List Phase

  -- `add_client` up to its wait, or to its return where the key is in the map.
  unfoldable pub begin_login : Bytes → Option ℕ → Option ℕ → Logins → Logins
  begin_login public_key socket signal_channel l = record l {
    connections =
        l.connections
        ++ (if is_known m public_key l.server
            then Phase.online public_key empty_index
            else Phase.asking public_key socket signal_channel)
          ∷ [];
  }

  -- The rest of `add_client_to_db` and of `add_client`, which run without another wait. The iterator
  -- was found to be the end before the wait.
  unfoldable pub finish_login :
      Bytes → Option ℕ → Option ℕ → ℕ → Server m → Outcome ClientIndex × Server m
  finish_login public_key socket signal_channel db_index s =
      and_then (enter_client m false public_key db_index s)
        (admit_client m public_key socket signal_channel)

  -- The connection goes on with its handle; `none` is undefined behaviour.
  unfoldable pub logged_in : ℕ → Bytes → Outcome ClientIndex × Server m → Logins → Option Logins
  logged_in c public_key (done indices, s) l = some (record {
    server = s;
    connections = modify (λ _. Phase.online public_key indices) l.connections c;
  })
  logged_in c public_key (threw, s) l = none
  logged_in c public_key (hung, s) l = none
  logged_in c public_key (undefined, s) l = none

  unfoldable pub answer_login : ℕ → ℕ → Option Phase → Logins → Option Logins
  unfolding logged_in
  answer_login c db_index (some (Phase.asking public_key socket signal_channel)) l =
      logged_in c public_key (finish_login public_key socket signal_channel db_index l.server) l
  answer_login c db_index _ l = some l

  unfoldable pub end_login : ℕ → Option Phase → Logins → Logins
  end_login c (some (Phase.online public_key indices)) l = record {
    server = remove_client m indices.index public_key l.server;
    connections = modify (λ _. Phase.gone) l.connections c;
  }
  end_login c _ l = l

  unfoldable pub login_step : LoginEvent → Logins → Option Logins
  unfolding answer_login end_login
  login_step (connects k socket channel) l = some (begin_login k socket channel l)
  login_step (answered c db_index) l = answer_login c db_index (get_elem? l.connections c) l
  login_step (ends c) l = some (end_login c (get_elem? l.connections c) l)

  unfoldable pub login_run : List LoginEvent → Logins → Option Logins
  login_run [] l = some l
  login_run (e ∷ es) l = do l' ← login_step e l; login_run es l'
