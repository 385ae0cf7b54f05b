-- ===== src/Service/Responses.antt =====
-- The JSON texts that the handlers of chatservice.cpp send.
use high_performance_chatser.Prelude.{
  ℤ, pos, Bytes, List, [], ◌∷◌, ◌++◌, map, codes, int_eq, bytes_eq, nat_eq,
}
use high_performance_chatser.Platform.{Platform}
use high_performance_chatser.Model.Types.{User, GroupUser, Group}
use high_performance_chatser.Service.Messages.{login_msg_ack, reg_msg_ack}

module _ (P : Platform) where
  open P use {Json, dump, null, set_int, set_string, set_strings}

  unfoldable pub friend_json : User → Json
  friend_json user =
      set_string (set_string (set_int null (codes "id") user.id) (codes "name") user.name)
        (codes "state") user.state

  unfoldable pub member_json : GroupUser → Json
  member_json user =
      set_string
        (set_string (set_string (set_int null (codes "id") user.id) (codes "name") user.name)
          (codes "state") user.state)
        (codes "role") user.role

  unfoldable pub group_json : Group → Json
  unfolding member_json
  group_json group =
      set_strings
        (set_string (set_string (set_int null (codes "id") group.id) (codes "groupname") group.name)
          (codes "groupdesc") group.desc)
        (codes "users") (map (λ user. dump (member_json user)) group.users)

  unfoldable pub with_friends : List User → Json → Json
  unfolding friend_json
  with_friends [] response = response
  with_friends (user ∷ users) response =
      set_strings response (codes "friends") (map (λ u. dump (friend_json u)) (user ∷ users))

  unfoldable pub with_groups : List Group → Json → Json
  unfolding group_json
  with_groups [] response = response
  with_groups (group ∷ groups) response =
      set_strings response (codes "groups") (map (λ g. dump (group_json g)) (group ∷ groups))

  -- What is printed on the way to `with_groups`, in order.
  unfoldable pub groups_dumped : List Group → List Json
  unfolding member_json group_json
  groups_dumped [] = []
  groups_dumped (group ∷ groups) =
      map member_json group.users ++ group_json group ∷ groups_dumped groups

  unfoldable pub login_ack : ℤ → Bytes → Json
  login_ack errno errmsg =
      set_string (set_int (set_int null (codes "msgid") login_msg_ack) (codes "errno") errno)
        (codes "errmsg") errmsg

  unfoldable pub login_ok : User → Json
  login_ok user =
      set_string
        (set_int (set_int (set_int null (codes "msgid") login_msg_ack) (codes "id") user.id)
          (codes "errno") (pos 0))
        (codes "name") user.name

  unfoldable pub reg_ok : User → Json
  reg_ok user =
      set_int (set_int (set_int null (codes "msgid") reg_msg_ack) (codes "id") user.id)
        (codes "errno") (pos 0)

  unfoldable pub reg_failed : Json
  reg_failed = set_int (set_int null (codes "msgid") reg_msg_ack) (codes "errno") (pos 1)
