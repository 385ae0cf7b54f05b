-- ===== src/Model/GroupModel.antt =====
-- model/GroupModel.cpp.
use high_performance_chatser.Prelude.{
  ℤ, Bool, true, false, Bytes, List, [], ◌∷◌, ◌++◌, map, if◌then◌else◌,
}
use high_performance_chatser.Platform.{Platform}
use high_performance_chatser.World.{Exec, pure, ◌>>=◌, ◌>>◌, lift, insert_id, query as select_rows}
use high_performance_chatser.Prelude.Decimal.{atoi}
use high_performance_chatser.Model.Types.{Group}
use high_performance_chatser.Model.Statements.{
  sprintf, insert_group_sql, insert_member_sql, select_groups_sql, select_members_sql,
  select_other_members_sql,
}
use high_performance_chatser.Model.Rows.{
  run_update, run_query, rows_of, group_of_row, member_of_row,
}

module _ {P : Platform} where
  -- `createGroup` sets the id of its argument: the group comes back beside the result.
  unfoldable pub create_group : Group → Exec P (Bool × Group)
  unfolding sprintf run_update
  create_group group = do
    sql ← lift (sprintf (insert_group_sql group.name group.desc))
    done ← run_update sql
    if done then (do id ← insert_id; pure (true, record group { id = id })) else pure (false, group)

  unfoldable pub add_group : ℤ → ℤ → Bytes → Exec P (Unit {0})
  unfolding sprintf run_update
  add_group userid groupid role = do
    sql ← lift (sprintf (insert_member_sql groupid userid role))
    run_update sql
    pure tt

  -- The loop that fills in the members, over the connection that the first query used.
  unfoldable pub fill_members : List Group → Exec P (List Group)
  unfolding sprintf
  fill_members [] = pure []
  fill_members (group ∷ groups) = do
    sql ← lift (sprintf (select_members_sql group.id))
    rows ← select_rows sql
    filled ← fill_members groups
    pure (record group { users = group.users ++ map member_of_row (rows_of rows) } ∷ filled)

  unfoldable pub query_groups : ℤ → Exec P (List Group)
  unfolding sprintf run_query fill_members
  query_groups userid = do
    sql ← lift (sprintf (select_groups_sql userid))
    rows ← run_query sql
    fill_members (map group_of_row rows)

  unfoldable pub query_group_users : ℤ → ℤ → Exec P (List ℤ)
  unfolding sprintf run_query atoi
  query_group_users userid groupid = do
    sql ← lift (sprintf (select_other_members_sql groupid userid))
    rows ← run_query sql
    pure (map (λ row. atoi (row 0)) rows)
