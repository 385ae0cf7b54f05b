-- ===== src/Service/Dispatch.antt =====
-- chatserver.cpp: a message goes to the handler of its `msgid`, and a closed connection to
-- `clientCloseException`.
use high_performance_chatser.Prelude.{
  ℤ, false, List, [], ◌∷◌, Bool, not, Bytes, Option, none, some, codes, if◌then◌else◌, int_eq,
  bytes_eq, nat_eq,
}
use high_performance_chatser.Platform.{Platform}
use high_performance_chatser.World.{ConnId, Exec, pure, ◌>>=◌, ◌>>◌, or_throw}
use high_performance_chatser.Service.Access.{get_int_at}
use high_performance_chatser.Service.Messages.{
  Handler, login_h, loginout_h, reg_h, one_chat_h, add_friend_h, create_group_h, add_group_h,
  group_chat_h, get_handler,
}
use high_performance_chatser.Service.Sessions.{login, loginout, reg, client_close_exception}
use high_performance_chatser.Service.Chats.{one_chat, group_chat, handle_redis_subscribe_message}
use high_performance_chatser.Service.Relations.{add_friend, create_group, add_group}

pub data Event : Type 0 where
  received : ConnId → Bytes → Event
  closed : ConnId → Event
  notified : ℤ → Bytes → Event

module _ {P : Platform} where
  open P use {Json, parse, dump, set_strings}

  unfoldable pub run_handler : Option Handler → ConnId → Json → Exec P (Unit {0})
  run_handler none conn js = pure tt
  run_handler (some login_h) conn js = login conn js
  run_handler (some loginout_h) conn js = loginout conn js
  run_handler (some reg_h) conn js = reg conn js
  run_handler (some one_chat_h) conn js = one_chat conn js
  run_handler (some add_friend_h) conn js = add_friend conn js
  run_handler (some create_group_h) conn js = create_group conn js
  run_handler (some add_group_h) conn js = add_group conn js
  run_handler (some group_chat_h) conn js = group_chat conn js

  -- `ChatServer::onMessage`, on the text that `retrieveAllAsString` returns.
  unfoldable pub on_message : ConnId → Bytes → Exec P (Unit {0})
  unfolding get_handler run_handler
  on_message conn text = do
    js ← or_throw (parse text)
    msgid ← get_int_at js (codes "msgid")
    run_handler (get_handler msgid) conn js

  -- `ChatServer::onConnection`; the `shutdown` that follows acts on the connection alone.
  unfoldable pub on_connection : ConnId → Bool → Exec P (Unit {0})
  unfolding client_close_exception
  on_connection conn connected = if not connected then client_close_exception conn else pure tt

  -- What the event loops hand to the service: a message, a closed connection, a Redis message.
  unfoldable pub handle : Event → Exec P (Unit {0})
  unfolding on_message on_connection handle_redis_subscribe_message
  handle (received conn text) = on_message conn text
  handle (closed conn) = on_connection conn false
  handle (notified userid text) = handle_redis_subscribe_message userid text

  -- Events in the order in which the handlers run. The process ends with the first one that stops.
  unfoldable pub run : List Event → Exec P (Unit {0})
  unfolding handle
  run [] = pure tt
  run (event ∷ events) = do handle event; run events
