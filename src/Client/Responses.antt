-- ===== src/Client/Responses.antt =====
-- What the second thread of the client does with the server's texts.
use high_performance_chatser.Prelude.{
  ℤ, pos, ◌+◌, true, false, not, Bytes, codes, List, [], ◌∷◌, ◌++◌, length, map, ltb, Result, ok,
  stop, Stop, need, then_do, int_eq, ◌==◌, if◌then◌else◌,
}
use high_performance_chatser.Prelude.Decimal.{fmt_int}
use high_performance_chatser.Platform.{Platform}
use high_performance_chatser.Model.Types.{User, Group, GroupUser, default_user}
use high_performance_chatser.Model.Statements.{c_str}
use high_performance_chatser.Service.Messages.{
  login_msg_ack, reg_msg_ack, one_chat_msg, group_chat_msg,
}
use high_performance_chatser.Client.{Client, show, exited}

infixl 10 ◌>>=◌
abbrev ◌>>=◌ : {A B : Type 0} → Result A → (A → Result B) → Result B
m >>= f = then_do m f

abbrev pure : {A : Type 0} → A → Result A
pure a = ok a

-- A function that may throw, on each item in turn.
unfoldable pub each : {A B : Type 0} → (A → Result B) → List A → Result (List B)
each f [] = ok []
each f (a ∷ as') = do b ← f a; bs ← each f as'; pure (b ∷ bs)

abbrev pub user_line : User → Bytes
user_line user = fmt_int user.id ++ codes " " ++ user.name ++ codes " " ++ user.state

abbrev pub member_line : GroupUser → Bytes
member_line user = user_line user.user ++ codes " " ++ user.role

unfoldable pub group_lines : List Group → List Bytes
group_lines [] = []
group_lines (group ∷ groups) =
    (fmt_int group.id ++ codes " " ++ group.name ++ codes " " ++ group.desc)
      ∷ map member_line group.users
    ++ group_lines groups

-- `showCurrentUserData`
unfoldable pub current_user_data : Client → List Bytes
unfolding group_lines
current_user_data c =
    codes "======================login user======================"
      ∷ (codes "current login user => id:"
          ++ fmt_int c.current_user.id
          ++ codes " name:"
          ++ c.current_user.name)
      ∷ codes "----------------------friend list---------------------"
      ∷ map user_line c.friend_list
    ++ codes "----------------------group list----------------------" ∷ group_lines c.group_list
    ++ codes "======================================================" ∷ []

unfoldable pub show_current_user_data : Client → Client
unfolding current_user_data
show_current_user_data c = record c { shown = c.shown ++ current_user_data c }

-- `sem_post`
abbrev pub post : Client → Client
post c = record c { permits = c.permits + 1 }

module _ (P : Platform) where
  open P use {Json, parse, get_int, get_string, get_strings, contains, member_text}

  -- The line of a chat message.
  unfoldable pub chat_line : Json → Result Bytes
  chat_line js = do
    name ← need (get_string js (codes "name"))
    msg ← need (get_string js (codes "msg"))
    pure (codes "[" ++ member_text js (codes "id") ++ codes "]" ++ name ++ codes " said: " ++ msg)

  unfoldable pub group_chat_line : Json → Result Bytes
  unfolding chat_line
  group_chat_line js = do
    line ← chat_line js
    pure (codes "group message [" ++ member_text js (codes "groupid") ++ codes "]: " ++ line)

  -- The members that a friend and a group's user have in common.
  unfoldable pub read_user : Json → Result User
  read_user js = do
    id ← need (get_int js (codes "id"))
    name ← need (get_string js (codes "name"))
    state ← need (get_string js (codes "state"))
    pure (record default_user { id = id; name = name; state = state })

  unfoldable pub read_friend : Bytes → Result User
  unfolding read_user
  read_friend str = do js ← need (parse str); read_user js

  unfoldable pub read_member : Bytes → Result GroupUser
  unfolding read_user
  read_member str = do
    js ← need (parse str)
    user ← read_user js
    role ← need (get_string js (codes "role"))
    pure (record { user = user; role = role })

  unfoldable pub read_group : Bytes → Result Group
  unfolding each read_member
  read_group str = do
    js ← need (parse str)
    id ← need (get_int js (codes "id"))
    name ← need (get_string js (codes "groupname"))
    desc ← need (get_string js (codes "groupdesc"))
    strs ← need (get_strings js (codes "users"))
    users ← each read_member strs
    pure (record { id = id; name = name; desc = desc; users = users })

  -- A list member that may be missing: then the list stays as it was.
  unfoldable pub read_list :
      {A : Type 0} → (Bytes → Result A) → Bytes → Json → List A → Result (List A)
  unfolding each
  read_list f key js old =
      if contains js key then (do strs ← need (get_strings js key); each f strs) else ok old

  unfoldable pub offline_line : Bytes → Result Bytes
  unfolding chat_line group_chat_line
  offline_line str = do
    js ← need (parse str)
    msgid ← need (get_int js (codes "msgid"))
    if msgid == one_chat_msg then chat_line js else group_chat_line js

  unfoldable pub do_reg_response : Json → Client → Result Client
  do_reg_response js c = do
    errno ← need (get_int js (codes "errno"))
    if not (errno == pos 0)
        then pure (show (codes "name is already exist, register error!") c)
        else pure (
            show
              (codes "name register success, userid is "
                ++ member_text js (codes "id")
                ++ codes ", do not forget it!")
              c)

  -- `doLoginResponse` for an errno of 0.
  unfoldable pub accept_login : Json → Client → Result Client
  unfolding read_list read_friend read_group show_current_user_data offline_line
  accept_login js c = do
    id ← need (get_int js (codes "id"))
    name ← need (get_string js (codes "name"))
    friends ← read_list read_friend (codes "friends") js c.friend_list
    groups ← read_list read_group (codes "groups") js c.group_list
    let c' : Client = show_current_user_data (record c {
      current_user = record c.current_user { id = id; name = name };
      friend_list = friends;
      group_list = groups;
    })
    lines ← read_list offline_line (codes "offlinemsg") js []
    pure (record c' { shown = c'.shown ++ lines; is_login_success = true })

  unfoldable pub do_login_response : Json → Client → Result Client
  unfolding accept_login
  do_login_response js c = do
    errno ← need (get_int js (codes "errno"))
    if not (errno == pos 0)
        then pure (show (member_text js (codes "errmsg")) (record c { is_login_success = false }))
        else accept_login js c

  unfoldable pub dispatch : ℤ → Json → Client → Result Client
  unfolding chat_line group_chat_line do_login_response do_reg_response
  dispatch msgtype js c =
      if msgtype == one_chat_msg
      then (do line ← chat_line js; pure (show line c))
      else if msgtype == group_chat_msg
      then (do line ← group_chat_line js; pure (show line c))
      else if msgtype == login_msg_ack
      then (do c' ← do_login_response js c; pure (post c'))
      else if msgtype == reg_msg_ack
      then (do c' ← do_reg_response js c; pure (post c'))
      else pure c

  unfoldable pub handle_text : Bytes → Client → Result Client
  unfolding dispatch
  handle_text text c = do
    js ← need (parse text)
    msgtype ← need (get_int js (codes "msgid"))
    dispatch msgtype js c

  -- A round of `readTaskHandler` on what `recv` has delivered, at most 1024 bytes; without bytes the
  -- process exits. A text that fills the array has no zero byte behind it.
  unfoldable pub receive : Bytes → Client → Result Client
  unfolding c_str handle_text
  receive [] c = ok (record c { phase = exited })
  receive (x ∷ text) c =
      if ltb (length (c_str (x ∷ text))) 1024
      then handle_text (c_str (x ∷ text)) c
      else stop Stop.buffer_overrun
