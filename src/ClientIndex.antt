-- ===== src/ClientIndex.antt =====
-- core/util/indices.hpp: the handle by which a client is addressed. `index` and `generation` name
-- a slot and one of its lives, `db_index` the client's row in the database.
use mydak_server.Base.{ℕ, ◌-◌, word}

pub record ClientIndex : Type 0 where
  pub index : ℕ
  pub generation : ℕ
  pub db_index : ℕ

-- `std::numeric_limits<std::size_t>::max()`
abbrev pub invalid_index : ℕ
invalid_index = word - 1

-- `client_index(index, generation)`; the third member keeps its default.
unfoldable pub with_generation : ℕ → ℕ → ClientIndex
with_generation index generation = record { index = index; generation = generation; db_index = 0 }

unfoldable pub with_db_index : ℕ → ℕ → ℕ → ClientIndex
with_db_index index generation db_index = record {
  index = index;
  generation = generation;
  db_index = db_index;
}

-- `client_index{}`
unfoldable pub unset : ClientIndex
unset = record { index = 0; generation = 0; db_index = 0 }

-- `client_index::empty()`
unfoldable pub empty_index : ClientIndex
unfolding with_db_index
empty_index = with_db_index invalid_index invalid_index invalid_index
