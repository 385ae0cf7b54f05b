-- ===== src/Service/Sessions.antt =====
-- The handlers of chatservice.cpp that open and close a user's session: `login`, `loginout`, `reg`,
-- `clientCloseException`, `reset`.
use high_performance_chatser.Prelude.{
  ℤ, pos, negsuc, not, ◌&&◌, Bytes, List, [], ◌∷◌, ◌++◌, map, Stop, Option, none, some, codes,
  if◌then◌else◌, ◌==◌, int_eq, bytes_eq, nat_eq, insert, erase, Map,
}
use high_performance_chatser.Platform.{Platform}
use high_performance_chatser.World.{
  ConnId, sent, subscribed, unsubscribed, Exec, pure, fail, ◌>>=◌, ◌>>◌, emit, get_users, put_users,
}
use high_performance_chatser.Model.Types.{User, default_user, online, offline}
use high_performance_chatser.Model.UserModel
use high_performance_chatser.Model.FriendModel
use high_performance_chatser.Model.GroupModel
use high_performance_chatser.Model.OfflineMsgModel
use high_performance_chatser.Service.Responses.{
  friend_json, groups_dumped, with_friends, with_groups, login_ack, login_ok, reg_ok, reg_failed,
}
use high_performance_chatser.Service.Access.{get_int_at, get_string_at}

-- The key of the first entry for a connection, in the map's order.
unfoldable pub first_key : ConnId → Map ℤ ConnId → Option ℤ
first_key conn [] = none
first_key conn ((id, c) ∷ m) = if c == conn then some id else first_key conn m

-- The loop of `clientCloseException`: the user that it sets the id of, and the map.
unfoldable pub forget_connection : ConnId → Map ℤ ConnId → User × Map ℤ ConnId
unfolding first_key erase
forget_connection conn m = elim (first_key conn m) [
  | none ↦ (default_user, m)
  | some id ↦ (record default_user { id = id }, erase id m)
]

module _ {P : Platform} where
  open P use {Json, parse, dump, set_strings}

  -- The stored messages go into the response and out of the table, if there are any.
  unfoldable pub with_offline : ℤ → List Bytes → Json → Exec P Json
  unfolding OfflineMsgModel.remove
  with_offline id [] response = pure response
  with_offline id (msg ∷ msgs) response = do
    OfflineMsgModel.remove id
    pure (set_strings response (codes "offlinemsg") (msg ∷ msgs))

  -- Whether `dump` of each comes back: it throws on a text that is not UTF-8.
  unfoldable pub dumps : List Json → Exec P (Unit {0})
  dumps [] = pure tt
  dumps (j ∷ js) = if P.is_printable j then dumps js else fail Stop.json_exception

  -- What a login that succeeds does after it has entered the connection into the map. The groups go
  -- into the response after it was sent.
  unfoldable pub login_greet : ConnId → ℤ → User → Exec P (Unit {0})
  unfolding UserModel.update_state login_ok OfflineMsgModel.query with_offline FriendModel.query
      with_friends GroupModel.query_groups with_groups groups_dumped dumps friend_json
  login_greet conn id user = do
    emit (subscribed id)
    UserModel.update_state (record user { state = online })
    msgs ← OfflineMsgModel.query id
    response ← with_offline id msgs (login_ok P user)
    friends ← FriendModel.query id
    dumps (map (friend_json P) friends ++ with_friends P friends response ∷ [])
    emit (sent conn (dump (with_friends P friends response)))
    groups ← GroupModel.query_groups id
    dumps (groups_dumped P groups)
    pure (with_groups P groups (with_friends P friends response))
    pure tt

  unfoldable pub login_accept : ConnId → ℤ → User → Exec P (Unit {0})
  unfolding insert login_greet
  login_accept conn id user = do
    users ← get_users
    put_users (insert id conn users)
    login_greet conn id user

  -- The tests of `login`, on the user that the query has found.
  unfoldable pub login_checked : ConnId → ℤ → Bytes → User → Exec P (Unit {0})
  unfolding login_ack login_accept
  login_checked conn id pwd user =
      if user.id == id && user.password == pwd
      then (if user.state == online
          then emit (sent conn (dump (login_ack P (pos 2) (codes "user already login in"))))
          else login_accept conn id user)
      else emit (sent conn (dump (login_ack P (pos 1) (codes "id or password invalid"))))

  unfoldable pub login : ConnId → Json → Exec P (Unit {0})
  unfolding UserModel.query login_checked
  login conn js = do
    id ← get_int_at js (codes "id")
    pwd ← get_string_at js (codes "password")
    user ← UserModel.query id
    login_checked conn id pwd user

  unfoldable pub loginout : ConnId → Json → Exec P (Unit {0})
  unfolding erase UserModel.update_state
  loginout conn js = do
    userid ← get_int_at js (codes "id")
    users ← get_users
    put_users (erase userid users)
    emit (unsubscribed userid)
    UserModel.update_state (record { id = userid; name = []; password = []; state = offline })
    pure tt

  unfoldable pub reg : ConnId → Json → Exec P (Unit {0})
  unfolding UserModel.insert reg_ok reg_failed
  reg conn js = do
    name ← get_string_at js (codes "name")
    pwd ← get_string_at js (codes "password")
    (done, user) ← UserModel.insert (record default_user { name = name; password = pwd })
    if done then emit (sent conn (dump (reg_ok P user))) else emit (sent conn (dump (reg_failed P)))

  -- What `clientCloseException` does after its search, with the user whose id is still -1 if the
  -- connection was in no entry.
  unfoldable pub close_finish : User → Exec P (Unit {0})
  unfolding UserModel.update_state
  close_finish user = do
    emit (unsubscribed user.id)
    if not (user.id == negsuc 0)
        then (do UserModel.update_state (record user { state = offline }); pure tt)
        else pure tt

  unfoldable pub client_close_exception : ConnId → Exec P (Unit {0})
  unfolding forget_connection close_finish
  client_close_exception conn = do
    users ← get_users
    put_users (forget_connection conn users).1
    close_finish (forget_connection conn users).0

  -- `reset`, which SIGINT calls.
  unfoldable pub reset : Exec P (Unit {0})
  unfolding UserModel.reset_state
  reset = UserModel.reset_state
