-- ===== src/Model/Framed.antt =====
-- The model classes have nothing to do with `UserConnMap`.
use high_performance_chatser.Prelude.{Stop, ℤ, Bytes, List, [], ◌∷◌}
use high_performance_chatser.Platform.{Platform}
use high_performance_chatser.World.Framed.{
  Framed-fail, Framed, framed_rules, Framed-pure, Framed-bind, Framed-lift, Framed-query,
}
use high_performance_chatser.Model.Types.{User, Group}
use high_performance_chatser.Model.Rows.{run_update, run_query}
use high_performance_chatser.Model.UserModel
use high_performance_chatser.Model.FriendModel
use high_performance_chatser.Model.GroupModel
use high_performance_chatser.Model.OfflineMsgModel

module _ {P : Platform} where
  run_update-Framed : (sql : Bytes) → Framed (run_update {P = P} sql)
  unfolding run_update
  run_update-Framed sql = search framed_rules

  run_query-Framed : (sql : Bytes) → Framed (run_query {P = P} sql)
  unfolding run_query
  run_query-Framed sql = search framed_rules

  pub user_query-Framed : (id : ℤ) → Framed (UserModel.query {P = P} id)
  unfolding UserModel.query
  user_query-Framed id = search (framed_rules, run_query-Framed)

  pub user_insert-Framed : (user : User) → Framed (UserModel.insert {P = P} user)
  unfolding UserModel.insert
  user_insert-Framed user = Framed-fail Stop.undefined_call

  pub update_state-Framed : (user : User) → Framed (UserModel.update_state {P = P} user)
  unfolding UserModel.update_state
  update_state-Framed user = search (framed_rules, run_update-Framed)

  pub friend_insert-Framed :
      (userid friendid : ℤ) → Framed (FriendModel.insert {P = P} userid friendid)
  unfolding FriendModel.insert
  friend_insert-Framed userid friendid = search (framed_rules, run_update-Framed)

  pub friend_query-Framed : (userid : ℤ) → Framed (FriendModel.query {P = P} userid)
  unfolding FriendModel.query
  friend_query-Framed userid = search (framed_rules, run_query-Framed)

  pub offline_insert-Framed :
      (userid : ℤ) (msg : Bytes) → Framed (OfflineMsgModel.insert {P = P} userid msg)
  unfolding OfflineMsgModel.insert
  offline_insert-Framed userid msg = Framed-fail Stop.undefined_call

  pub offline_remove-Framed : (userid : ℤ) → Framed (OfflineMsgModel.remove {P = P} userid)
  unfolding OfflineMsgModel.remove
  offline_remove-Framed userid = search (framed_rules, run_update-Framed)

  pub offline_query-Framed : (userid : ℤ) → Framed (OfflineMsgModel.query {P = P} userid)
  unfolding OfflineMsgModel.query
  offline_query-Framed userid = search (framed_rules, run_query-Framed)

  pub create_group-Framed : (group : Group) → Framed (GroupModel.create_group {P = P} group)
  unfolding GroupModel.create_group
  create_group-Framed group = search (framed_rules, run_update-Framed) depth 8

  pub add_group-Framed :
      (userid groupid : ℤ) (role : Bytes)
      → Framed (GroupModel.add_group {P = P} userid groupid role)
  unfolding GroupModel.add_group
  add_group-Framed userid groupid role = search (framed_rules, run_update-Framed)

  fill_members-Framed : (groups : List Group) → Framed (GroupModel.fill_members {P = P} groups)
  unfolding GroupModel.fill_members
  fill_members-Framed [] = Framed-pure []
  fill_members-Framed (group ∷ groups) = Framed-bind _ _ (Framed-lift _) λ sql.
      Framed-bind _ _ (Framed-query sql)
        λ rows. Framed-bind _ _ (fill_members-Framed groups) λ filled. Framed-pure _

  pub query_groups-Framed : (userid : ℤ) → Framed (GroupModel.query_groups {P = P} userid)
  unfolding GroupModel.query_groups
  query_groups-Framed userid = search (framed_rules, run_query-Framed, fill_members-Framed)

  pub query_group_users-Framed :
      (userid groupid : ℤ) → Framed (GroupModel.query_group_users {P = P} userid groupid)
  unfolding GroupModel.query_group_users
  query_group_users-Framed userid groupid = search (framed_rules, run_query-Framed)
