-- ===== src/Client/Requests.antt =====
-- The JSON texts that the client sends.
use high_performance_chatser.Prelude.{
  ℤ, Bool, false, Bytes, codes, List, [], ◌∷◌, ◌++◌, if◌then◌else◌,
}
use high_performance_chatser.Platform.{Platform}
use high_performance_chatser.Platform.Json.{Value, int_value, string_value, object}
use high_performance_chatser.Model.Types.{User}
use high_performance_chatser.Model.Statements.{c_str}
use high_performance_chatser.Service.Messages.{
  login_msg, loginout_msg, reg_msg, one_chat_msg, add_friend_msg, create_group_msg, add_group_msg,
  group_chat_msg,
}
use high_performance_chatser.Client.{Client, show, exited}

abbrev pub login_fields : ℤ → Bytes → List (Bytes × Value)
login_fields id pwd =
    (codes "msgid", int_value login_msg)
    ∷ (codes "id", int_value id)
    ∷ (codes "password", string_value pwd)
    ∷ []

abbrev pub reg_fields : Bytes → Bytes → List (Bytes × Value)
reg_fields name pwd =
    (codes "msgid", int_value reg_msg)
    ∷ (codes "name", string_value name)
    ∷ (codes "password", string_value pwd)
    ∷ []

abbrev pub addfriend_fields : User → ℤ → List (Bytes × Value)
addfriend_fields user friendid =
    (codes "msgid", int_value add_friend_msg)
    ∷ (codes "id", int_value user.id)
    ∷ (codes "friendid", int_value friendid)
    ∷ []

abbrev pub chat_fields : User → ℤ → Bytes → List (Bytes × Value)
chat_fields user friendid message =
    (codes "msgid", int_value one_chat_msg)
    ∷ (codes "id", int_value user.id)
    ∷ (codes "name", string_value user.name)
    ∷ (codes "toid", int_value friendid)
    ∷ (codes "msg", string_value message)
    ∷ []

abbrev pub creategroup_fields : User → Bytes → Bytes → List (Bytes × Value)
creategroup_fields user groupname groupdesc =
    (codes "msgid", int_value create_group_msg)
    ∷ (codes "id", int_value user.id)
    ∷ (codes "groupname", string_value groupname)
    ∷ (codes "groupdesc", string_value groupdesc)
    ∷ []

abbrev pub addgroup_fields : User → ℤ → List (Bytes × Value)
addgroup_fields user groupid =
    (codes "msgid", int_value add_group_msg)
    ∷ (codes "id", int_value user.id)
    ∷ (codes "groupid", int_value groupid)
    ∷ []

abbrev pub groupchat_fields : User → ℤ → Bytes → List (Bytes × Value)
groupchat_fields user groupid message =
    (codes "msgid", int_value group_chat_msg)
    ∷ (codes "id", int_value user.id)
    ∷ (codes "name", string_value user.name)
    ∷ (codes "groupid", int_value groupid)
    ∷ (codes "msg", string_value message)
    ∷ []

abbrev pub loginout_fields : User → List (Bytes × Value)
loginout_fields user =
    (codes "msgid", int_value loginout_msg) ∷ (codes "id", int_value user.id) ∷ []

module _ (P : Platform) where
  -- The bytes of one `send`: the text up to a zero byte, and a zero byte.
  unfoldable pub request : List (Bytes × Value) → Bytes
  unfolding c_str
  request fields = c_str (P.dump (object P fields)) ++ 0 ∷ []

  -- `dump`, which throws on a text that is not UTF-8, and nothing in the client catches this; then
  -- `send`, which has returned -1 unless `sends`; the error is printed before the text.
  unfoldable pub send_request : Bool → Bytes → List (Bytes × Value) → Client → Client
  unfolding request
  send_request sends error fields c =
      if P.is_printable (object P fields)
      then (if sends
          then record c { sent = c.sent ++ request fields ∷ [] }
          else show (error ++ P.dump (object P fields)) c)
      else record c { phase = exited; is_main_menu_running = false }
