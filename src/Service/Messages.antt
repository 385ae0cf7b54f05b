-- ===== src/Service/Messages.antt =====
-- MsgType.h, and the handler map of `ChatService`.
use high_performance_chatser.Prelude.{
  ℤ, pos, [], Option, int_eq, bytes_eq, nat_eq, lookup, insert, Map,
}

-- `EnMsgType`
abbrev pub login_msg : ℤ
login_msg = pos 1

abbrev pub login_msg_ack : ℤ
login_msg_ack = pos 2

abbrev pub loginout_msg : ℤ
loginout_msg = pos 3

abbrev pub reg_msg : ℤ
reg_msg = pos 4

abbrev pub reg_msg_ack : ℤ
reg_msg_ack = pos 5

abbrev pub one_chat_msg : ℤ
one_chat_msg = pos 6

abbrev pub add_friend_msg : ℤ
add_friend_msg = pos 7

abbrev pub create_group_msg : ℤ
create_group_msg = pos 8

abbrev pub add_group_msg : ℤ
add_group_msg = pos 9

abbrev pub group_chat_msg : ℤ
group_chat_msg = pos 10

-- The member functions that `MsgHandlerMap` binds.
pub data Handler : Type 0 where
  login_h loginout_h reg_h one_chat_h add_friend_h create_group_h add_group_h group_chat_h : Handler

-- `MsgHandlerMap`, as the constructor fills it.
unfoldable pub msg_handler_map : Map ℤ Handler
unfolding insert
msg_handler_map = insert group_chat_msg group_chat_h (
    insert add_group_msg add_group_h (
      insert create_group_msg create_group_h (
        insert add_friend_msg add_friend_h (
          insert one_chat_msg one_chat_h (
            insert reg_msg reg_h (insert loginout_msg loginout_h (insert login_msg login_h [])))))))

-- `none` is the handler that prints "can not find handler".
unfoldable pub get_handler : ℤ → Option Handler
unfolding msg_handler_map lookup
get_handler msgid = lookup msgid msg_handler_map
