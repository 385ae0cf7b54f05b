-- ===== src/Service/Relations.antt =====
-- The handlers of chatservice.cpp that store friends and groups: `addFriend`, `createGroup`, `addGroup`.
use high_performance_chatser.Prelude.{negsuc, codes, if◌then◌else◌, int_eq, bytes_eq, nat_eq}
use high_performance_chatser.Platform.{Platform}
use high_performance_chatser.World.{ConnId, Exec, pure, ◌>>=◌}
use high_performance_chatser.Model.Types.{new_group}
use high_performance_chatser.Model.FriendModel
use high_performance_chatser.Model.GroupModel
use high_performance_chatser.Service.Access.{get_int_at, get_string_at}

module _ {P : Platform} where
  open P use {Json, parse, dump, set_strings}

  unfoldable pub add_friend : ConnId → Json → Exec P (Unit {0})
  unfolding FriendModel.insert
  add_friend conn js = do
    userid ← get_int_at js (codes "id")
    friendid ← get_int_at js (codes "friendid")
    FriendModel.insert userid friendid

  unfoldable pub create_group : ConnId → Json → Exec P (Unit {0})
  unfolding GroupModel.create_group GroupModel.add_group
  create_group conn js = do
    userid ← get_int_at js (codes "id")
    name ← get_string_at js (codes "groupname")
    desc ← get_string_at js (codes "groupdesc")
    (done, group) ← GroupModel.create_group (new_group (negsuc 0) name desc)
    if done then GroupModel.add_group userid group.id (codes "creator") else pure tt

  unfoldable pub add_group : ConnId → Json → Exec P (Unit {0})
  unfolding GroupModel.add_group
  add_group conn js = do
    userid ← get_int_at js (codes "id")
    groupid ← get_int_at js (codes "groupid")
    GroupModel.add_group userid groupid (codes "normal")
