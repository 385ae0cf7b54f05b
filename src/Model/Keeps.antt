-- ===== src/Model/Keeps.antt =====
-- The model classes keep what is stable under their statements.
use high_performance_chatser.Prelude.{
  Stop, inl, inr, Bool-cases, ltb, length, ℤ, Bytes, List, [], ◌∷◌,
}
use high_performance_chatser.Platform.{Platform}
use high_performance_chatser.World.{World, Effect, statement, ◌>>=◌, Exec, lift}
use high_performance_chatser.World.Keeps.{
  Keeps-fail, Keeps, Stable, keeps_rules, Keeps-pure, Keeps-bind, Keeps-lift, Keeps-get_connection,
  Keeps-update, Keeps-query, Keeps-insert_id,
}
use high_performance_chatser.Model.Types.{User, Group}
use high_performance_chatser.Model.Statements.{
  sprintf, sql_size, update_state_sql, reset_state_sql, insert_friend_sql, insert_group_sql,
  insert_member_sql, delete_offline_sql,
}
use high_performance_chatser.Model.Rows.{run_update, run_query}
use high_performance_chatser.Model.UserModel
use high_performance_chatser.Model.FriendModel
use high_performance_chatser.Model.GroupModel
use high_performance_chatser.Model.OfflineMsgModel

-- The rest of a member function has the statement that it has printed.
Keeps-sprintf :
    {P : Platform} {A : Type 0} {Q : World P → Type 0} (sql : Bytes) (f : Bytes → Exec P A)
    → Keeps Q (f sql)
    → Keeps Q (lift (sprintf sql) >>= f)
unfolding sprintf ◌>>=◌
Keeps-sprintf sql f k = elim (Bool-cases (ltb (length sql) sql_size)) [
  | inl fits ↦ record { at = λ w h. rw fits (k.at w h) }
  | inr long ↦ record { at = λ w h. rw long h }
]

module _ {P : Platform} {Allowed : Effect → Type 0} {Q : World P → Type 0}
    (s : Stable Allowed Q) where
  pub run_update-Keeps : (sql : Bytes) → Allowed (statement sql) → Keeps Q (run_update {P = P} sql)
  unfolding run_update
  run_update-Keeps sql a = search (keeps_rules, Keeps-get_connection, Keeps-update)

  pub run_query-Keeps : (sql : Bytes) → Keeps Q (run_query {P = P} sql)
  unfolding run_query
  run_query-Keeps sql = search (keeps_rules, Keeps-get_connection, Keeps-query)

  pub user_query-Keeps : (id : ℤ) → Keeps Q (UserModel.query {P = P} id)
  unfolding UserModel.query
  user_query-Keeps id = search (keeps_rules, run_query-Keeps)

  pub user_insert-Keeps : (user : User) → Keeps Q (UserModel.insert {P = P} user)
  unfolding UserModel.insert
  user_insert-Keeps user = Keeps-fail Stop.undefined_call

  pub update_state-Keeps :
      (user : User)
      → Allowed (statement (update_state_sql user.state user.id))
      → Keeps Q (UserModel.update_state {P = P} user)
  unfolding UserModel.update_state
  update_state-Keeps user a = search (keeps_rules, Keeps-sprintf, run_update-Keeps)

  pub reset_state-Keeps :
      Allowed (statement reset_state_sql) → Keeps Q (UserModel.reset_state {P = P})
  unfolding UserModel.reset_state
  reset_state-Keeps a = search (keeps_rules, run_update-Keeps)

  pub friend_insert-Keeps :
      (userid friendid : ℤ)
      → Allowed (statement (insert_friend_sql userid friendid))
      → Keeps Q (FriendModel.insert {P = P} userid friendid)
  unfolding FriendModel.insert
  friend_insert-Keeps userid friendid a = search (keeps_rules, Keeps-sprintf, run_update-Keeps)

  pub friend_query-Keeps : (userid : ℤ) → Keeps Q (FriendModel.query {P = P} userid)
  unfolding FriendModel.query
  friend_query-Keeps userid = search (keeps_rules, run_query-Keeps)

  pub offline_insert-Keeps :
      (userid : ℤ) (msg : Bytes) → Keeps Q (OfflineMsgModel.insert {P = P} userid msg)
  unfolding OfflineMsgModel.insert
  offline_insert-Keeps userid msg = Keeps-fail Stop.undefined_call

  pub offline_remove-Keeps :
      (userid : ℤ)
      → Allowed (statement (delete_offline_sql userid))
      → Keeps Q (OfflineMsgModel.remove {P = P} userid)
  unfolding OfflineMsgModel.remove
  offline_remove-Keeps userid a = search (keeps_rules, Keeps-sprintf, run_update-Keeps)

  pub offline_query-Keeps : (userid : ℤ) → Keeps Q (OfflineMsgModel.query {P = P} userid)
  unfolding OfflineMsgModel.query
  offline_query-Keeps userid = search (keeps_rules, run_query-Keeps)

  pub create_group-Keeps :
      (group : Group)
      → Allowed (statement (insert_group_sql group.name group.desc))
      → Keeps Q (GroupModel.create_group {P = P} group)
  unfolding GroupModel.create_group
  create_group-Keeps group a =
      search (keeps_rules, Keeps-sprintf, run_update-Keeps, Keeps-insert_id) depth 8

  pub add_group-Keeps :
      (userid groupid : ℤ) (role : Bytes)
      → Allowed (statement (insert_member_sql groupid userid role))
      → Keeps Q (GroupModel.add_group {P = P} userid groupid role)
  unfolding GroupModel.add_group
  add_group-Keeps userid groupid role a = search (keeps_rules, Keeps-sprintf, run_update-Keeps)

  fill_members-Keeps : (groups : List Group) → Keeps Q (GroupModel.fill_members {P = P} groups)
  unfolding GroupModel.fill_members
  fill_members-Keeps [] = Keeps-pure []
  fill_members-Keeps (group ∷ groups) = Keeps-bind _ _ (Keeps-lift _) λ sql.
      Keeps-bind _ _ (Keeps-query s sql)
        λ rows. Keeps-bind _ _ (fill_members-Keeps groups) λ filled. Keeps-pure _

  pub query_groups-Keeps : (userid : ℤ) → Keeps Q (GroupModel.query_groups {P = P} userid)
  unfolding GroupModel.query_groups
  query_groups-Keeps userid = search (keeps_rules, run_query-Keeps, fill_members-Keeps)

  pub query_group_users-Keeps :
      (userid groupid : ℤ) → Keeps Q (GroupModel.query_group_users {P = P} userid groupid)
  unfolding GroupModel.query_group_users
  query_group_users-Keeps userid groupid = search (keeps_rules, run_query-Keeps)
