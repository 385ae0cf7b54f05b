-- ===== src/Client/Commands.antt =====
-- The commands of `mainMenu` and their handlers.
use high_performance_chatser.Prelude.{
  ℕ, ◌+◌, ◌-◌, Bool, false, Bytes, codes, List, [], ◌∷◌, ◌++◌, Option, none, some, length, take,
  find, substr, Map, lookup, bytes_eq, map, if◌then◌else◌,
}
use high_performance_chatser.Prelude.Decimal.{atoi}
use high_performance_chatser.Platform.{Platform}
use high_performance_chatser.Model.Statements.{c_str}
use high_performance_chatser.Client.{Client, show}
use high_performance_chatser.Client.Requests.{
  addfriend_fields, chat_fields, creategroup_fields, addgroup_fields, groupchat_fields,
  loginout_fields, send_request,
}

-- `commandMap`. The order stands for that of the iteration.
abbrev pub command_map : Map Bytes Bytes
command_map =
    (codes "help", codes "show all supporting commands")
    ∷ (codes "chat", codes "one chat")
    ∷ (codes "addfriend", codes "add friend")
    ∷ (codes "creategroup", codes "create group")
    ∷ (codes "addgroup", codes "add group")
    ∷ (codes "groupchat", codes "chat in a group")
    ∷ (codes "loginout", codes "login out")
    ∷ []

unfoldable pub help : Client → Client
help c = record c {
  shown =
      c.shown
      ++ codes "show command list >>> " ∷ map (λ p. p.0 ++ codes " : " ++ p.1) command_map
      ++ [] ∷ [];
}

-- The functions of `commandHandlerMap`.
pub data Command : Type 0 where
  help_c chat_c addfriend_c creategroup_c addgroup_c groupchat_c loginout_c : Command

abbrev pub command_handler_map : Map Bytes Command
command_handler_map =
    (codes "help", help_c)
    ∷ (codes "chat", chat_c)
    ∷ (codes "addfriend", addfriend_c)
    ∷ (codes "creategroup", creategroup_c)
    ∷ (codes "addgroup", addgroup_c)
    ∷ (codes "groupchat", groupchat_c)
    ∷ (codes "loginout", loginout_c)
    ∷ []

-- The text after the first colon, at `idx`.
abbrev pub after_colon : ℕ → Bytes → Bytes
after_colon idx str = substr (idx + 1) (length str - idx) str

-- What the line names before its first colon, and what it hands to the handler.
unfoldable pub parse_line : Bytes → Bytes × Bytes
unfolding find
parse_line line = elim (find b':' line) [
  | none ↦ (line, line)
  | some idx ↦ (take idx line, after_colon idx line)
]

module _ (P : Platform) where
  unfoldable pub addfriend : Bool → Bytes → Client → Client
  unfolding atoi send_request
  addfriend sends str c =
      send_request P sends (codes "send addfriend msg error -> ")
        (addfriend_fields c.current_user (atoi str)) c

  unfoldable pub chat : Bool → Bytes → Client → Client
  unfolding find atoi send_request
  chat sends str c = elim (find b':' str) [
    | none ↦ show (codes "chat command invalid!") c
    | some idx ↦
        send_request P sends (codes "send chat msg error -> ")
          (chat_fields c.current_user (atoi (take idx str)) (after_colon idx str)) c
  ]

  unfoldable pub creategroup : Bool → Bytes → Client → Client
  unfolding find send_request
  creategroup sends str c = elim (find b':' str) [
    | none ↦ show (codes "creategroup command invalid!") c
    | some idx ↦
        send_request P sends (codes "send creategroup msg error -> ")
          (creategroup_fields c.current_user (take idx str) (after_colon idx str)) c
  ]

  unfoldable pub addgroup : Bool → Bytes → Client → Client
  unfolding atoi send_request
  addgroup sends str c =
      send_request P sends (codes "send addgroup msg error -> ")
        (addgroup_fields c.current_user (atoi str)) c

  unfoldable pub groupchat : Bool → Bytes → Client → Client
  unfolding find atoi send_request
  groupchat sends str c = elim (find b':' str) [
    | none ↦ show (codes "groupchat command invalid!") c
    | some idx ↦
        send_request P sends (codes "send groupchat msg error -> ")
          (groupchat_fields c.current_user (atoi (take idx str)) (after_colon idx str)) c
  ]

  unfoldable pub loginout : Bool → Client → Client
  unfolding send_request
  loginout sends c =
      let c' =
        send_request P sends (codes "send loginout msg error -> ") (loginout_fields c.current_user)
          c in
      if sends then record c' { is_main_menu_running = false } else c'

  unfoldable pub run_command : Command → Bool → Bytes → Client → Client
  unfolding help chat addfriend creategroup addgroup groupchat loginout
  run_command help_c sends str c = help c
  run_command chat_c sends str c = chat sends str c
  run_command addfriend_c sends str c = addfriend sends str c
  run_command creategroup_c sends str c = creategroup sends str c
  run_command addgroup_c sends str c = addgroup sends str c
  run_command groupchat_c sends str c = groupchat sends str c
  run_command loginout_c sends str c = loginout sends c

  unfoldable pub run_parsed : Option Command → Bool → Bytes → Client → Client
  unfolding run_command
  run_parsed none sends str c = show (codes "invalid input command!") c
  run_parsed (some command) sends str c = run_command command sends str c

  -- One round of `mainMenu`, on the line that `getline` has read.
  unfoldable pub menu_line : Bool → Bytes → Client → Client
  unfolding c_str parse_line run_parsed lookup
  menu_line sends line c =
      let (command, str) = parse_line (c_str line) in
      run_parsed (lookup command command_handler_map) sends str c

  -- `mainMenu`, on the lines that the user types; `sends` says which of them `send` accepts.
  unfoldable pub main_menu : List (Bool × Bytes) → Client → Client
  unfolding menu_line
  main_menu [] c = c
  main_menu ((sends, line) ∷ lines) c =
      if c.is_main_menu_running then main_menu lines (menu_line sends line c) else c
