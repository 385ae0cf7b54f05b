-- ===== src/Platform.antt =====
-- What the server calls and does not implement: the JSON library of utils/json.hpp, the MySQL client
-- behind a pooled connection, and the outcome of `Connectionpool::getConnection`, which depends on
-- the other threads.
pub mod Json
use high_performance_chatser.Prelude.{ℕ, ℤ, Bool, Bytes, List, Option}

-- A row of a result, by column; each column is text.
abbrev pub Row : Type 0
Row = ℕ → Bytes

pub record Platform : Type 1 where
  -- `nlohmann::json`. `none` is an exception, which the server does not catch.
  pub Json : Type 0
  pub parse : Bytes → Option Json
  pub dump : Json → Bytes  -- what `dump` returns where it does not throw
  pub is_printable : Json → Bool  -- whether all strings are UTF-8; on others `dump` throws
  pub null : Json
  pub get_int : Json → Bytes → Option ℤ
  pub get_string : Json → Bytes → Option Bytes
  pub get_strings : Json → Bytes → Option (List Bytes)
  pub contains : Json → Bytes → Bool
  pub member_text : Json → Bytes → Bytes  -- what `cout << js[key]` prints
  pub set_int : Json → Bytes → ℤ → Json
  pub set_string : Json → Bytes → Bytes → Json
  pub set_strings : Json → Bytes → List Bytes → Json
  -- The database as the pool's clients see it: whether a connection is granted in time, the result
  -- of a statement that changes tables, the rows of a query (`none` for an error), and
  -- `mysql_insert_id`.
  pub Db : Type 0
  pub grant : Db → Bool × Db
  pub execute : Bytes → Db → Bool × Db
  pub select : Bytes → Db → Option (List Row) × Db
  pub insert_id : Db → ℤ
