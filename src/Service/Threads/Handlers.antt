-- ===== src/Service/Threads/Handlers.antt =====
-- The handlers in steps. What the lock of `ConnMutex` covers is under `locked`.
use high_performance_chatser.Prelude.{
  map, ◌++◌, ℤ, negsuc, Bool, true, false, not, ◌&&◌, Bytes, codes, List, [], ◌∷◌, Option, none,
  some, lookup, erase, insert, int_eq, bytes_eq, nat_eq, ◌==◌, if◌then◌else◌, pos,
}
use high_performance_chatser.Platform.{Platform}
use high_performance_chatser.World.{
  ConnId, or_throw, emit, get_users, sent, published, subscribed, unsubscribed,
}
use high_performance_chatser.Model.Types.{User, default_user, online, offline, new_group}
use high_performance_chatser.Model.UserModel
use high_performance_chatser.Model.FriendModel
use high_performance_chatser.Model.GroupModel
use high_performance_chatser.Model.OfflineMsgModel
use high_performance_chatser.Service.Access.{get_int_at, get_string_at}
use high_performance_chatser.Service.Responses.{
  login_ok, login_ack, reg_ok, reg_failed, with_friends, friend_json, groups_dumped,
}
use high_performance_chatser.Service.Messages.{
  Handler, login_h, loginout_h, reg_h, one_chat_h, add_friend_h, create_group_h, add_group_h,
  group_chat_h, get_handler,
}
use high_performance_chatser.Service.Sessions.{forget_connection, with_offline, dumps}
use high_performance_chatser.Service.Dispatch.{Event, received, closed, notified}
use high_performance_chatser.Service.Threads.{
  Thread, over, Part, pure, call, ◌>>=◌, ◌>>◌, locked, change_users,
}

module _ {P : Platform} where
  open P use {Json, parse, dump}

  -- `login` from `redis.subscribe` on.
  unfoldable pub greet : ConnId → ℤ → User → Part P (Unit {0})
  greet conn id user = do
    call (emit (subscribed id))
    call (UserModel.update_state (record user { state = online }))
    msgs ← call (OfflineMsgModel.query id)
    response ← call (with_offline id msgs (login_ok P user))
    friends ← call (FriendModel.query id)
    call (dumps (map (friend_json P) friends ++ with_friends P friends response ∷ []))
    call (emit (sent conn (dump (with_friends P friends response))))
    groups ← call (GroupModel.query_groups id)
    call (dumps (groups_dumped P groups))
    pure tt

  unfoldable pub accept : ConnId → ℤ → User → Part P (Unit {0})
  unfolding locked greet
  accept conn id user = do locked (call (change_users (insert id conn))); greet conn id user

  unfoldable pub check : ConnId → ℤ → Bytes → User → Part P (Unit {0})
  unfolding accept
  check conn id pwd user =
      if user.id == id && user.password == pwd
      then (if user.state == online
          then call (emit (sent conn (dump (login_ack P (pos 2) (codes "user already login in")))))
          else accept conn id user)
      else call (emit (sent conn (dump (login_ack P (pos 1) (codes "id or password invalid")))))

  unfoldable pub login : ConnId → Json → Part P (Unit {0})
  unfolding check
  login conn js = do
    id ← call (get_int_at js (codes "id"))
    pwd ← call (get_string_at js (codes "password"))
    user ← call (UserModel.query id)
    check conn id pwd user

  unfoldable pub loginout : ConnId → Json → Part P (Unit {0})
  unfolding locked
  loginout conn js = do
    userid ← call (get_int_at js (codes "id"))
    locked (call (change_users (erase userid)))
    call (emit (unsubscribed userid))
    call
        (UserModel.update_state (record { id = userid; name = []; password = []; state = offline }))
    pure tt

  unfoldable pub reg : ConnId → Json → Part P (Unit {0})
  reg conn js = do
    name ← call (get_string_at js (codes "name"))
    pwd ← call (get_string_at js (codes "password"))
    (done, user) ← call (UserModel.insert (record default_user { name = name; password = pwd }))
    if done
        then call (emit (sent conn (dump (reg_ok P user))))
        else call (emit (sent conn (dump (reg_failed P))))

  unfoldable pub after_close : User → Part P (Unit {0})
  after_close user = do
    call (emit (unsubscribed user.id))
    if not (user.id == negsuc 0)
        then call (UserModel.update_state (record user { state = offline })) >> pure tt
        else pure tt

  unfoldable pub client_close_exception : ConnId → Part P (Unit {0})
  unfolding locked after_close
  client_close_exception conn = do
    users ← locked (call (change_users (λ m. (forget_connection conn m).1)))
    after_close (forget_connection conn users).0

  unfoldable pub deliver_away : ℤ → Bytes → Part P (Unit {0})
  deliver_away id text = do
    user ← call (UserModel.query id)
    if user.state == online
        then call (emit (published id text))
        else call (OfflineMsgModel.insert id text)

  unfoldable pub deliver : Option ConnId → ℤ → Bytes → Part P (Unit {0})
  unfolding deliver_away
  deliver (some c) id text = call (emit (sent c text))
  deliver none id text = deliver_away id text

  -- The locked block of `oneChat`: whether it has sent the message, and so returned.
  unfoldable pub send_here : Option ConnId → Bytes → Part P Bool
  send_here (some c) text = call (emit (sent c text)) >> pure true
  send_here none text = pure false

  unfoldable pub one_chat : ConnId → Json → Part P (Unit {0})
  unfolding locked send_here deliver_away
  one_chat conn js = do
    toid ← call (get_int_at js (codes "toid"))
    done ← locked (do users ← call get_users; send_here (lookup toid users) (dump js))
    if done then pure tt else deliver_away toid (dump js)

  unfoldable pub deliver_all : List ℤ → Bytes → Part P (Unit {0})
  unfolding deliver
  deliver_all [] text = pure tt
  deliver_all (id ∷ ids) text = do
    users ← call get_users
    deliver (lookup id users) id text
    deliver_all ids text

  unfoldable pub group_chat : ConnId → Json → Part P (Unit {0})
  unfolding locked deliver_all
  group_chat conn js = do
    userid ← call (get_int_at js (codes "id"))
    groupid ← call (get_int_at js (codes "groupid"))
    ids ← call (GroupModel.query_group_users userid groupid)
    locked (deliver_all ids (dump js))

  unfoldable pub deliver_notified : Option ConnId → ℤ → Bytes → Bytes → Part P (Unit {0})
  deliver_notified (some c) userid text raw = call (emit (sent c text))
  deliver_notified none userid text raw = call (OfflineMsgModel.insert userid raw)

  unfoldable pub handle_redis_subscribe_message : ℤ → Bytes → Part P (Unit {0})
  unfolding locked deliver_notified
  handle_redis_subscribe_message userid msg = do
    js ← call (or_throw (parse msg))
    locked (do users ← call get_users; deliver_notified (lookup userid users) userid (dump js) msg)

  unfoldable pub add_friend : ConnId → Json → Part P (Unit {0})
  add_friend conn js = do
    userid ← call (get_int_at js (codes "id"))
    friendid ← call (get_int_at js (codes "friendid"))
    call (FriendModel.insert userid friendid)

  unfoldable pub create_group : ConnId → Json → Part P (Unit {0})
  create_group conn js = do
    userid ← call (get_int_at js (codes "id"))
    name ← call (get_string_at js (codes "groupname"))
    desc ← call (get_string_at js (codes "groupdesc"))
    (done, group) ← call (GroupModel.create_group (new_group (negsuc 0) name desc))
    if done then call (GroupModel.add_group userid group.id (codes "creator")) else pure tt

  unfoldable pub add_group : ConnId → Json → Part P (Unit {0})
  add_group conn js = do
    userid ← call (get_int_at js (codes "id"))
    groupid ← call (get_int_at js (codes "groupid"))
    call (GroupModel.add_group userid groupid (codes "normal"))

  unfoldable pub run_handler : Option Handler → ConnId → Json → Part P (Unit {0})
  unfolding login loginout reg one_chat add_friend create_group add_group group_chat
  run_handler none conn js = pure tt
  run_handler (some login_h) conn js = login conn js
  run_handler (some loginout_h) conn js = loginout conn js
  run_handler (some reg_h) conn js = reg conn js
  run_handler (some one_chat_h) conn js = one_chat conn js
  run_handler (some add_friend_h) conn js = add_friend conn js
  run_handler (some create_group_h) conn js = create_group conn js
  run_handler (some add_group_h) conn js = add_group conn js
  run_handler (some group_chat_h) conn js = group_chat conn js

  unfoldable pub on_message : ConnId → Bytes → Part P (Unit {0})
  unfolding run_handler
  on_message conn text = do
    js ← call (or_throw (parse text))
    msgid ← call (get_int_at js (codes "msgid"))
    run_handler (get_handler msgid) conn js

  unfoldable pub handle : Event → Part P (Unit {0})
  unfolding on_message client_close_exception handle_redis_subscribe_message
  handle (received conn text) = on_message conn text
  handle (closed conn) = client_close_exception conn
  handle (notified userid text) = handle_redis_subscribe_message userid text

  -- A thread that has an event to handle.
  abbrev pub thread_of : Event → Thread P
  thread_of event = handle event (λ _. over)
