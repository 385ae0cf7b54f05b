-- ===== src/Service/Threads/Guarded/Handling.antt =====
-- The locks in each handler, and its calls that have to do with the map.
use high_performance_chatser.Prelude.{
  int_eq, Stop, ℤ, ◌≡◌, ◌⊎◌, inl, inr, refl, Bool, true, false, List, [], ◌∷◌, Bytes, Option, none,
  some,
}
use high_performance_chatser.Platform.{Platform}
use high_performance_chatser.World.{ConnId}
use high_performance_chatser.World.Framed.{Framed, Framed-if, Framed-fail, framed_rules}
use high_performance_chatser.Service.Threads.{over}
use high_performance_chatser.Model.Types.{User}
use high_performance_chatser.Model.Framed.{
  user_query-Framed, user_insert-Framed, update_state-Framed, friend_insert-Framed,
  friend_query-Framed, offline_insert-Framed, offline_remove-Framed, offline_query-Framed,
  create_group-Framed, add_group-Framed, query_groups-Framed, query_group_users-Framed,
}
use high_performance_chatser.Service.Messages.{
  Handler, login_h, loginout_h, reg_h, one_chat_h, add_friend_h, create_group_h, add_group_h,
  group_chat_h,
}
use high_performance_chatser.Service.Sessions.{with_offline, dumps}
use high_performance_chatser.Service.Dispatch.{Event, received, closed, notified}
use high_performance_chatser.Service.Threads.Handlers.{
  greet, accept, check, login, loginout, reg, after_close, client_close_exception, deliver_away,
  deliver, send_here, one_chat, deliver_all, group_chat, deliver_notified,
  handle_redis_subscribe_message, add_friend, create_group, add_group, run_handler, on_message,
  handle, thread_of,
}
use high_performance_chatser.Service.Threads.Guarded.{
  IsGuarded, Guards, Guards-pure, Guards-call, Guards-held, Guards-locked, Guards-bind,
  Guards-insert, Shrinks-get_users, guards_rules, held_rules,
}

module _ {P : Platform} where
  with_offline-Framed :
      (id : ℤ) (msgs : List Bytes) (js : P.Json) → Framed (with_offline {P = P} id msgs js)
  unfolding with_offline
  with_offline-Framed id [] js = search framed_rules
  with_offline-Framed id (msg ∷ msgs) js = search (framed_rules, offline_remove-Framed)

  pub dumps-Framed : (js : List P.Json) → Framed (dumps {P = P} js)
  unfolding dumps
  dumps-Framed [] = search framed_rules
  dumps-Framed (j ∷ js) =
      Framed-if (P.is_printable j) _ _ (dumps-Framed js) (Framed-fail Stop.json_exception)

  pub greet-Guards :
      {adds : Bool} (conn : ConnId) (id : ℤ) (user : User)
      → Guards adds false (greet {P = P} conn id user)
  unfolding greet
  greet-Guards conn id user = Guards-bind _ _ (search guards_rules) λ _.
      Guards-bind _ _ (Guards-call _ (update_state-Framed _)) λ _.
        Guards-bind _ _ (Guards-call _ (offline_query-Framed id)) λ msgs.
          Guards-bind _ _ (Guards-call _ (with_offline-Framed id msgs _)) λ response.
            Guards-bind _ _ (Guards-call _ (friend_query-Framed id)) λ friends.
              Guards-bind _ _ (Guards-call _ (dumps-Framed _)) λ _.
                Guards-bind _ _ (search guards_rules) λ _.
                  Guards-bind _ _ (Guards-call _ (query_groups-Framed id))
                    λ groups. Guards-bind _ _ (Guards-call _ (dumps-Framed _)) λ _. Guards-pure tt

  check-Guards :
      (conn : ConnId) (id : ℤ) (pwd : Bytes) (user : User)
      → Guards true false (check {P = P} conn id pwd user)
  unfolding check accept
  check-Guards conn id pwd user =
      search (guards_rules, Guards-locked, Guards-insert, greet-Guards) depth 10

  login-Guards : (conn : ConnId) (js : P.Json) → Guards true false (login {P = P} conn js)
  unfolding login
  login-Guards conn js = search (guards_rules, user_query-Framed, check-Guards) depth 12

  loginout-Guards :
      {adds : Bool} (conn : ConnId) (js : P.Json) → Guards adds false (loginout {P = P} conn js)
  unfolding loginout
  loginout-Guards conn js = search (guards_rules, held_rules, update_state-Framed) depth 12

  reg-Guards : {adds : Bool} (conn : ConnId) (js : P.Json) → Guards adds false (reg {P = P} conn js)
  unfolding reg
  reg-Guards conn js = search (guards_rules, user_insert-Framed) depth 12

  after_close-Guards : {adds : Bool} (user : User) → Guards adds false (after_close {P = P} user)
  unfolding after_close
  after_close-Guards user = search (guards_rules, update_state-Framed) depth 10

  pub close-Guards :
      {adds : Bool} (conn : ConnId) → Guards adds false (client_close_exception {P = P} conn)
  unfolding client_close_exception
  close-Guards conn = search (guards_rules, held_rules, after_close-Guards) depth 10

  deliver_away-Guards :
      {adds held : Bool} (id : ℤ) (text : Bytes) → Guards adds held (deliver_away {P = P} id text)
  unfolding deliver_away
  deliver_away-Guards id text =
      search (guards_rules, user_query-Framed, offline_insert-Framed) depth 10

  deliver-Guards :
      {adds held : Bool} (o : Option ConnId) (id : ℤ) (text : Bytes)
      → Guards adds held (deliver {P = P} o id text)
  unfolding deliver
  deliver-Guards none id text = deliver_away-Guards id text
  deliver-Guards (some c) id text = search guards_rules

  send_here-Guards :
      {adds held : Bool} (o : Option ConnId) (text : Bytes)
      → Guards adds held (send_here {P = P} o text)
  unfolding send_here
  send_here-Guards none text = search guards_rules
  send_here-Guards (some c) text = search guards_rules

  one_chat-Guards :
      {adds : Bool} (conn : ConnId) (js : P.Json) → Guards adds false (one_chat {P = P} conn js)
  unfolding one_chat
  one_chat-Guards conn js =
      search (guards_rules, held_rules, send_here-Guards, deliver_away-Guards) depth 12

  deliver_all-Guards :
      {adds : Bool} (ids : List ℤ) (text : Bytes) → Guards adds true (deliver_all {P = P} ids text)
  unfolding deliver_all
  deliver_all-Guards [] text = Guards-pure tt
  deliver_all-Guards (id ∷ ids) text =
      Guards-bind _ _ (Guards-held _ Shrinks-get_users)
        λ users. Guards-bind _ _ (deliver-Guards _ id text) λ _. deliver_all-Guards ids text

  group_chat-Guards :
      {adds : Bool} (conn : ConnId) (js : P.Json) → Guards adds false (group_chat {P = P} conn js)
  unfolding group_chat
  group_chat-Guards conn js =
      search (guards_rules, Guards-locked, query_group_users-Framed, deliver_all-Guards) depth 12

  deliver_notified-Guards :
      {adds held : Bool} (o : Option ConnId) (id : ℤ) (text raw : Bytes)
      → Guards adds held (deliver_notified {P = P} o id text raw)
  unfolding deliver_notified
  deliver_notified-Guards none id text raw = search (guards_rules, offline_insert-Framed)
  deliver_notified-Guards (some c) id text raw = search guards_rules

  pub notified-Guards :
      {adds : Bool} (id : ℤ) (msg : Bytes)
      → Guards adds false (handle_redis_subscribe_message {P = P} id msg)
  unfolding handle_redis_subscribe_message
  notified-Guards id msg = search (guards_rules, held_rules, deliver_notified-Guards) depth 12

  add_friend-Guards :
      {adds : Bool} (conn : ConnId) (js : P.Json) → Guards adds false (add_friend {P = P} conn js)
  unfolding add_friend
  add_friend-Guards conn js = search (guards_rules, friend_insert-Framed) depth 12

  create_group-Guards :
      {adds : Bool} (conn : ConnId) (js : P.Json) → Guards adds false (create_group {P = P} conn js)
  unfolding create_group
  create_group-Guards conn js =
      search (guards_rules, create_group-Framed, add_group-Framed) depth 14

  add_group-Guards :
      {adds : Bool} (conn : ConnId) (js : P.Json) → Guards adds false (add_group {P = P} conn js)
  unfolding add_group
  add_group-Guards conn js = search (guards_rules, add_group-Framed) depth 12

  -- Every handler but `login` inserts nothing.
  pub handler_cases :
      (h : Option Handler) (conn : ConnId) (js : P.Json)
      → (h ≡ some login_h) ⊎ ((adds : Bool) → Guards adds false (run_handler {P = P} h conn js))
  unfolding run_handler
  handler_cases none conn js = inr (λ adds. Guards-pure tt)
  handler_cases (some login_h) conn js = inl refl
  handler_cases (some loginout_h) conn js = inr (λ adds. loginout-Guards conn js)
  handler_cases (some reg_h) conn js = inr (λ adds. reg-Guards conn js)
  handler_cases (some one_chat_h) conn js = inr (λ adds. one_chat-Guards conn js)
  handler_cases (some add_friend_h) conn js = inr (λ adds. add_friend-Guards conn js)
  handler_cases (some create_group_h) conn js = inr (λ adds. create_group-Guards conn js)
  handler_cases (some add_group_h) conn js = inr (λ adds. add_group-Guards conn js)
  handler_cases (some group_chat_h) conn js = inr (λ adds. group_chat-Guards conn js)

  run_handler-Guards :
      (h : Option Handler) (conn : ConnId) (js : P.Json)
      → Guards true false (run_handler {P = P} h conn js)
  unfolding run_handler
  run_handler-Guards h conn js = elim (handler_cases h conn js) [
    | inl is_login ↦ rw is_login (login-Guards conn js)
    | inr others ↦ others true
  ]

  handle-Guards : (event : Event) → Guards true false (handle {P = P} event)
  unfolding handle on_message
  handle-Guards (received conn text) = search (guards_rules, run_handler-Guards) depth 12
  handle-Guards (closed conn) = close-Guards conn
  handle-Guards (notified userid text) = notified-Guards userid text

pub thread_of-IsGuarded :
    (P : Platform) (event : Event) → IsGuarded true false (thread_of {P = P} event)
thread_of-IsGuarded P event = (handle-Guards event).guards (λ _. over) (λ _. refl)
