-- ===== src/Model/Rows.antt =====
-- What the model classes share: rows read into objects, and a statement or a query on a connection
-- from the pool (`if (conn) { ... }`).
use high_performance_chatser.Prelude.{
  Bool, false, Bytes, List, [], ◌∷◌, Option, none, some, if◌then◌else◌,
}
use high_performance_chatser.Prelude.Decimal.{atoi}
use high_performance_chatser.Platform.{Platform, Row}
use high_performance_chatser.World.{Exec, pure, ◌>>=◌, get_connection, update, query}
use high_performance_chatser.Model.Types.{User, GroupUser, Group, default_user}

-- `user.setId(atoi(row[0]))` and so on, over the columns that each query selects.
unfoldable pub user_of_row : Row → User
unfolding atoi
user_of_row row = record { id = atoi (row 0); name = row 1; password = row 2; state = row 3 }

unfoldable pub friend_of_row : Row → User
unfolding atoi
friend_of_row row = record default_user { id = atoi (row 0); name = row 1; state = row 2 }

unfoldable pub member_of_row : Row → GroupUser
unfolding atoi
member_of_row row = record {
  user = record default_user { id = atoi (row 0); name = row 1; state = row 2 };
  role = row 3;
}

unfoldable pub group_of_row : Row → Group
unfolding atoi
group_of_row row = record { id = atoi (row 0); name = row 1; desc = row 2; users = [] }

-- The rows of a result, none if the query failed.
abbrev pub rows_of : Option (List Row) → List Row
rows_of none = []
rows_of (some rows) = rows

-- The first row, or `User()`.
abbrev pub first_user : List Row → User
first_user [] = default_user
first_user (row ∷ rows) = user_of_row row

module _ {P : Platform} where
  -- A statement for its effect, if the pool grants a connection.
  unfoldable pub run_update : Bytes → Exec P Bool
  run_update sql = do granted ← get_connection; if granted then update sql else pure false

  -- The rows of a query, none if the pool grants no connection.
  unfoldable pub run_query : Bytes → Exec P (List Row)
  run_query sql = do
    granted ← get_connection
    if granted then (do rows ← query sql; pure (rows_of rows)) else pure []
