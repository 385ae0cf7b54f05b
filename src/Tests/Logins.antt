-- ===== src/Tests/Logins.antt =====
-- A run of a login, from the client to the server and back.
use high_performance_chatser.Prelude.{
  pos, ◌≡◌, refl, true, Bytes, codes, [], ◌∷◌, ◌++◌, arith, ok, lookup, insert, assign, int_eq,
  bytes_eq, bytes_beq,
}
use high_performance_chatser.Prelude.Decimal.{fmt_int, atoi}
use high_performance_chatser.World.{World, sent, statement, subscribed, ◌>>=◌}
use high_performance_chatser.Model.Types.{User, online, offline}
use high_performance_chatser.Model.Rows.{run_update, run_query, user_of_row}
use high_performance_chatser.Model.Statements.{
  select_user_sql, select_offline_sql, select_friends_sql, update_state_sql,
  select_other_members_sql, sprintf, c_str,
}
use high_performance_chatser.Model.UserModel
use high_performance_chatser.Model.FriendModel
use high_performance_chatser.Model.OfflineMsgModel
use high_performance_chatser.Service.Responses.{with_friends, login_ok}
use high_performance_chatser.Service.Dispatch.{on_message}
use high_performance_chatser.Client.{Client, new_client, awaiting_login, in_menu}
use high_performance_chatser.Client.Session.{login_choice, choose, enter_menu}
use high_performance_chatser.Client.Responses.{receive}
use high_performance_chatser.EndToEnd.LoggingIn.{logged_in}
use high_performance_chatser.EndToEnd.Entering.{Answers, login_enters_menu}
use high_performance_chatser.Tests.Fixtures.{select_rows}
use high_performance_chatser.Tests.Codec.{coded, coded-JsonLaws, print}
use high_performance_chatser.Tests.Dialogue.{nobody}

abbrev stored_user : User
stored_user = record { id = pos 1; name = codes "name"; password = codes "secret"; state = offline }

abbrev logged : World coded
logged = record {
  users = (pos 1, 10) ∷ [];
  db = 1;
  trace = subscribed (pos 1) ∷ statement (update_state_sql online (pos 1)) ∷ [];
}

logged-Answers : Answers {P = coded} 10 (pos 1) stored_user [] nobody logged
unfolding UserModel.query UserModel.update_state OfflineMsgModel.query FriendModel.query ◌>>=◌
    sprintf run_update run_query select_rows select_user_sql select_offline_sql select_friends_sql
    update_state_sql fmt_int atoi user_of_row bytes_beq insert lookup select_other_members_sql
logged-Answers = record {
  queried = nobody;
  updated = logged;
  checked = logged;
  marked = true;
  finds_user = refl;
  marks_user = refl;
  no_messages = refl;
  finds_friends = refl;
}

abbrev asking : Client
asking = choose coded (login_choice (pos 1) (codes "secret")) true new_client

abbrev own_answer : Bytes
own_answer = coded.dump (with_friends coded [] (login_ok coded stored_user))

login_enters_menu_example :
    (req : Bytes) × (asking ≡ record new_client { sent = req ∷ []; phase = awaiting_login })
    × ((on_message {P = coded} 10 req nobody).1.trace ≡ logged.trace ++ sent 10 own_answer ∷ [])
    × ((on_message {P = coded} 10 req nobody).1.users ≡ (pos 1, 10) ∷ [])
    × (receive coded own_answer asking ≡ ok (logged_in stored_user [] asking))
    × ((enter_menu (record (logged_in stored_user [] asking) { permits = 0 })).phase ≡ in_menu)
unfolding insert lookup print with_friends login_ok fmt_int assign bytes_beq c_str
login_enters_menu_example =
    login_enters_menu {P = coded} coded-JsonLaws new_client 10 (pos 1) (codes "secret") stored_user
      [] nobody logged (refl, refl, λ e. cc) logged-Answers refl tt refl (omega arith)
