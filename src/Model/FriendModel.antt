-- ===== src/Model/FriendModel.antt =====
-- model/FriendModel.cpp.
use high_performance_chatser.Prelude.{ℤ, List, map}
use high_performance_chatser.Platform.{Platform}
use high_performance_chatser.World.{Exec, pure, ◌>>=◌, ◌>>◌, lift}
use high_performance_chatser.Model.Types.{User}
use high_performance_chatser.Model.Statements.{sprintf, insert_friend_sql, select_friends_sql}
use high_performance_chatser.Model.Rows.{run_update, run_query, friend_of_row}

module _ {P : Platform} where
  unfoldable pub insert : ℤ → ℤ → Exec P (Unit {0})
  unfolding sprintf run_update
  insert userid friendid = do
    sql ← lift (sprintf (insert_friend_sql userid friendid))
    run_update sql
    pure tt

  unfoldable pub query : ℤ → Exec P (List User)
  unfolding sprintf run_query
  query userid = do
    sql ← lift (sprintf (select_friends_sql userid))
    rows ← run_query sql
    pure (map friend_of_row rows)
