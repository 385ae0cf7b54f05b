-- ===== src/Model/UserModel.antt =====
-- model/UserModel.cpp.
use high_performance_chatser.Prelude.{Stop, ℤ, Bool}
use high_performance_chatser.Platform.{Platform}
use high_performance_chatser.World.{Exec, fail, pure, ◌>>=◌, ◌>>◌, lift}
use high_performance_chatser.Model.Types.{User}
use high_performance_chatser.Model.Statements.{
  sprintf, select_user_sql, update_state_sql, reset_state_sql,
}
use high_performance_chatser.Model.Rows.{run_update, run_query, first_user}

module _ {P : Platform} where
  -- `insert` sets the id of its argument: the user would come back beside the result. But `sprintf`
  -- gets the string object of the name itself for `%s`, which is undefined.
  unfoldable pub insert : User → Exec P (Bool × User)
  insert user = fail Stop.undefined_call

  -- `query`, `User()` if there is no row.
  unfoldable pub query : ℤ → Exec P User
  unfolding sprintf run_query
  query id = do
    sql ← lift (sprintf (select_user_sql id))
    rows ← run_query sql
    pure (first_user rows)

  unfoldable pub update_state : User → Exec P Bool
  unfolding sprintf run_update
  update_state user = do sql ← lift (sprintf (update_state_sql user.state user.id)); run_update sql

  unfoldable pub reset_state : Exec P (Unit {0})
  unfolding run_update
  reset_state = do run_update reset_state_sql; pure tt
