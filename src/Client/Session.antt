-- ===== src/Client/Session.antt =====
-- `main`: the menu before the login, up to a `sem_wait` and after it. What `cin` delivers is an argument; a failed `cin` is left out.
use high_performance_chatser.Prelude.{ℤ, Bool, true, false, Bytes, codes, take, if◌then◌else◌}
use high_performance_chatser.Platform.{Platform}
use high_performance_chatser.Platform.Json.{object}
use high_performance_chatser.Model.Statements.{c_str}
use high_performance_chatser.Client.{
  Client, at_top, awaiting_login, awaiting_reg, in_menu, exited, show,
}
use high_performance_chatser.Client.Requests.{login_fields, reg_fields, send_request}
use high_performance_chatser.Client.Commands.{help}

-- What the user chooses, with what is asked for then.
pub data Choice : Type 0 where
  login_choice : ℤ → Bytes → Choice
  register_choice : Bytes → Bytes → Choice
  quit_choice invalid_choice : Choice

-- What an array holds after `getline`.
abbrev pub typed : Bytes → Bytes
typed line = c_str (take 49 line)

module _ (P : Platform) where
  -- The switch of `main`, up to a `sem_wait`. `getline` reads 49 characters into an array of 50, which
  -- is a string up to its first zero byte.
  unfoldable pub choose : Choice → Bool → Client → Client
  unfolding send_request c_str
  choose (login_choice id pwd) sends c =
      let c' =
        send_request P sends (codes "send login msg error:") (login_fields id (typed pwd)) c in
      if P.is_printable (object P (login_fields id (typed pwd)))
      then record c' { phase = awaiting_login; is_login_success = false }
      else c'
  choose (register_choice name pwd) sends c =
      let c' =
        send_request P sends (codes "send reg msg error:") (reg_fields (typed name) (typed pwd))
          c in
      if P.is_printable (object P (reg_fields (typed name) (typed pwd)))
      then record c' { phase = awaiting_reg }
      else c'
  choose quit_choice sends c = record c { phase = exited }
  choose invalid_choice sends c = show (codes "invalid input!") c

-- The main thread after `sem_wait` of a login, up to the first line of `mainMenu`.
unfoldable pub enter_menu : Client → Client
unfolding help
enter_menu c =
    if c.is_login_success
    then record (help (record c { is_main_menu_running = true })) { phase = in_menu }
    else record c { phase = at_top }
