-- ===== src/Service/Keeps.antt =====
-- The handlers of the chat service keep what is stable under their calls and statements: the handlers
-- that leave the map alone, and those that change it, given that the change keeps it too.
use high_performance_chatser.Prelude.{
  ℤ, Stop, Bytes, List, [], ◌∷◌, Option, some, none, Map, lookup, erase, insert, int_eq, nat_eq,
}
use high_performance_chatser.Platform.{Platform}
use high_performance_chatser.World.{World, ConnId}
use high_performance_chatser.World.Keeps.{
  Keeps, Stable, keeps_rules, Keeps-pure, Keeps-fail, Keeps-if, Keeps-bind, Keeps-or_throw,
  Keeps-get_users, Keeps-change_users, Keeps-emit,
}
use high_performance_chatser.Model.Types.{User}
use high_performance_chatser.Model.Keeps.{
  user_query-Keeps, update_state-Keeps, friend_insert-Keeps, friend_query-Keeps,
  offline_insert-Keeps, offline_remove-Keeps, offline_query-Keeps, create_group-Keeps,
  add_group-Keeps, query_groups-Keeps, query_group_users-Keeps,
}
use high_performance_chatser.Service.Messages.{
  Handler, login_h, loginout_h, reg_h, one_chat_h, add_friend_h, create_group_h, add_group_h,
  group_chat_h,
}
use high_performance_chatser.Service.Sessions.{
  forget_connection, with_offline, dumps, login, login_accept, login_greet, login_checked,
  close_finish, loginout, reg, client_close_exception,
}
use high_performance_chatser.Service.Chats.{
  deliver, deliver_away, deliver_all, deliver_notified, one_chat, group_chat,
  handle_redis_subscribe_message,
}
use high_performance_chatser.Service.Relations.{add_friend, create_group, add_group}
use high_performance_chatser.Service.Dispatch.{
  run_handler, handle, run, Event, received, closed, notified,
}

-- A fact about the map alone outlives statements, queries and calls.
pub users_stable :
    {P : Platform} (R : Map ℤ ConnId → Type 0) → Stable {P = P} (λ e. Unit) (λ w. R w.users)
users_stable R = record { db_change = λ w d h. h; call = λ w e a h. h }

module _ {P : Platform} {Q : World P → Type 0} (s : Stable (λ e. Unit) Q) where
  deliver_away-Keeps : (id : ℤ) (text : Bytes) → Keeps Q (deliver_away {P = P} id text)
  unfolding deliver_away
  deliver_away-Keeps id text = search (keeps_rules, user_query-Keeps, Keeps-emit, tt)

  deliver-Keeps : (o : Option ConnId) (id : ℤ) (text : Bytes) → Keeps Q (deliver {P = P} o id text)
  unfolding deliver
  deliver-Keeps none id text = deliver_away-Keeps id text
  deliver-Keeps (some c) id text = Keeps-emit s _ tt

  deliver_all-Keeps : (ids : List ℤ) (text : Bytes) → Keeps Q (deliver_all {P = P} ids text)
  unfolding deliver_all
  deliver_all-Keeps [] text = Keeps-pure tt
  deliver_all-Keeps (id ∷ ids) text = Keeps-get_users _ λ users.
      Keeps-bind _ _ (deliver-Keeps (lookup id users) id text) λ _. deliver_all-Keeps ids text

  deliver_notified-Keeps :
      (o : Option ConnId) (id : ℤ) (text raw : Bytes)
      → Keeps Q (deliver_notified {P = P} o id text raw)
  unfolding deliver_notified
  deliver_notified-Keeps none id text raw = offline_insert-Keeps s id raw
  deliver_notified-Keeps (some c) id text raw = Keeps-emit s _ tt

  one_chat-Keeps : (conn : ConnId) (js : P.Json) → Keeps Q (one_chat {P = P} conn js)
  unfolding one_chat
  one_chat-Keeps conn js = search (keeps_rules, deliver-Keeps)

  group_chat-Keeps : (conn : ConnId) (js : P.Json) → Keeps Q (group_chat {P = P} conn js)
  unfolding group_chat
  group_chat-Keeps conn js =
      search (keeps_rules, query_group_users-Keeps, deliver_all-Keeps) depth 8

  notified-Keeps : (id : ℤ) (msg : Bytes) → Keeps Q (handle_redis_subscribe_message {P = P} id msg)
  unfolding handle_redis_subscribe_message
  notified-Keeps id msg = search (keeps_rules, deliver_notified-Keeps) depth 8

  add_friend-Keeps : (conn : ConnId) (js : P.Json) → Keeps Q (add_friend {P = P} conn js)
  unfolding add_friend
  add_friend-Keeps conn js = search (keeps_rules, friend_insert-Keeps, tt) depth 8

  create_group-handler-Keeps :
      (conn : ConnId) (js : P.Json) → Keeps Q (create_group {P = P} conn js)
  unfolding create_group
  create_group-handler-Keeps conn js =
      search (keeps_rules, create_group-Keeps, add_group-Keeps, tt) depth 8

  add_group-handler-Keeps : (conn : ConnId) (js : P.Json) → Keeps Q (add_group {P = P} conn js)
  unfolding add_group
  add_group-handler-Keeps conn js = search (keeps_rules, add_group-Keeps, tt) depth 8

  pub reg-Keeps : (conn : ConnId) (js : P.Json) → Keeps Q (reg {P = P} conn js)
  unfolding reg
  reg-Keeps conn js = search (keeps_rules, Keeps-emit, tt) depth 8

  with_offline-Keeps :
      (id : ℤ) (msgs : List Bytes) (js : P.Json) → Keeps Q (with_offline {P = P} id msgs js)
  unfolding with_offline
  with_offline-Keeps id [] js = Keeps-pure js
  with_offline-Keeps id (msg ∷ msgs) js = search (keeps_rules, offline_remove-Keeps, tt)

  dumps-Keeps : (js : List P.Json) → Keeps Q (dumps {P = P} js)
  unfolding dumps
  dumps-Keeps [] = Keeps-pure tt
  dumps-Keeps (j ∷ js) =
      Keeps-if (P.is_printable j) _ _ (dumps-Keeps js) (Keeps-fail Stop.json_exception)

  pub login_greet-Keeps :
      (conn : ConnId) (id : ℤ) (user : User) → Keeps Q (login_greet {P = P} conn id user)
  unfolding login_greet
  login_greet-Keeps conn id user =
      search
        (
          keeps_rules, Keeps-emit, update_state-Keeps, offline_query-Keeps, with_offline-Keeps,
          friend_query-Keeps, query_groups-Keeps, dumps-Keeps, tt,
        )
        depth 20

  pub close_finish-Keeps : (user : User) → Keeps Q (close_finish {P = P} user)
  unfolding close_finish
  close_finish-Keeps user = search (keeps_rules, Keeps-emit, update_state-Keeps, tt)

  -- What the handlers of sessions do to the map is kept too.
  module _
      (inserts : (id : ℤ) (conn : ConnId) (w : World P)
        → Q w
        → Q (record w { users = insert id conn w.users }))
      (erases : (id : ℤ) (w : World P) → Q w → Q (record w { users = erase id w.users }))
      (forgets : (conn : ConnId) (w : World P)
        → Q w
        → Q (record w { users = (forget_connection conn w.users).1 })) where
    login_accept-Keeps :
        (conn : ConnId) (id : ℤ) (user : User) → Keeps Q (login_accept {P = P} conn id user)
    unfolding login_accept
    login_accept-Keeps conn id user =
        Keeps-change_users (insert id conn) _ (inserts id conn) λ _. login_greet-Keeps conn id user

    login_checked-Keeps :
        (conn : ConnId) (id : ℤ) (pwd : Bytes) (user : User)
        → Keeps Q (login_checked {P = P} conn id pwd user)
    unfolding login_checked
    login_checked-Keeps conn id pwd user = search (keeps_rules, Keeps-emit, login_accept-Keeps, tt)

    login-Keeps : (conn : ConnId) (js : P.Json) → Keeps Q (login {P = P} conn js)
    unfolding login
    login-Keeps conn js = search (keeps_rules, user_query-Keeps, login_checked-Keeps) depth 9

    loginout-Keeps : (conn : ConnId) (js : P.Json) → Keeps Q (loginout {P = P} conn js)
    unfolding loginout
    loginout-Keeps conn js = Keeps-bind _ _ (Keeps-or_throw _) λ userid.
        Keeps-change_users (erase userid) _ (erases userid)
          λ _. search (keeps_rules, Keeps-emit, update_state-Keeps, tt)

    close-Keeps : (conn : ConnId) → Keeps Q (client_close_exception {P = P} conn)
    unfolding client_close_exception
    close-Keeps conn =
        Keeps-change_users (λ users. (forget_connection conn users).1) _ (forgets conn)
          λ users. close_finish-Keeps (forget_connection conn users).0

    run_handler-Keeps :
        (h : Option Handler) (conn : ConnId) (js : P.Json) → Keeps Q (run_handler {P = P} h conn js)
    unfolding run_handler
    run_handler-Keeps none conn js = Keeps-pure tt
    run_handler-Keeps (some login_h) conn js = login-Keeps conn js
    run_handler-Keeps (some loginout_h) conn js = loginout-Keeps conn js
    run_handler-Keeps (some reg_h) conn js = reg-Keeps conn js
    run_handler-Keeps (some one_chat_h) conn js = one_chat-Keeps conn js
    run_handler-Keeps (some add_friend_h) conn js = add_friend-Keeps conn js
    run_handler-Keeps (some create_group_h) conn js = create_group-handler-Keeps conn js
    run_handler-Keeps (some add_group_h) conn js = add_group-handler-Keeps conn js
    run_handler-Keeps (some group_chat_h) conn js = group_chat-Keeps conn js

    pub handle-Keeps : (event : Event) → Keeps Q (handle {P = P} event)
    unfolding handle
    handle-Keeps (received conn text) =
        Keeps-bind _ _ (Keeps-or_throw _)
          λ js. Keeps-bind _ _ (Keeps-or_throw _) λ msgid. run_handler-Keeps _ conn js
    handle-Keeps (closed conn) = close-Keeps conn
    handle-Keeps (notified userid text) = notified-Keeps userid text

    pub run-Keeps : (events : List Event) → Keeps Q (run {P = P} events)
    unfolding run
    run-Keeps [] = Keeps-pure tt
    run-Keeps (event ∷ events) = Keeps-bind _ _ (handle-Keeps event) λ _. run-Keeps events
