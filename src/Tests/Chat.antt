-- ===== src/Tests/Chat.antt =====
-- Runs of the chat service on the small platform.
use high_performance_chatser.Prelude.{
  ℕ, bytes_beq, ◌≡◌, ◌≢◌, refl, ℤ, pos, negsuc, codes, List, [], ◌∷◌, some, arith, lookup, insert,
  int_eq, bytes_eq, int_beq_iff,
}
use high_performance_chatser.Model.Rows.{run_query}
use high_performance_chatser.Model.GroupModel
use high_performance_chatser.World.{◌>>=◌, World}
use high_performance_chatser.Model.Types.{User, offline}
use high_performance_chatser.Model.Statements.{
  c_str, select_user_sql, select_other_members_sql, sprintf,
}
use high_performance_chatser.Prelude.Decimal.{fmt_int, atoi}
use high_performance_chatser.Service.Closing.{close_is_loginout}
use high_performance_chatser.Service.Sessions.{
  client_close_exception, loginout, login, login_checked, login_accept,
}
use high_performance_chatser.Service.Races.{late_login_unregistered}
use high_performance_chatser.Service.Chats.{one_chat, group_chat}
use high_performance_chatser.Service.Delivery.{
  Delivers, DeliversAll, one_chat-Delivers, group_chat-DeliversAll,
}
use high_performance_chatser.Service.Credentials.{login_without_account}
use high_performance_chatser.Service.Registry.{
  OneUser, close_forgets, close_leaves_second_user, after_close,
}
use high_performance_chatser.Tests.Fixtures.{
  small, Object, select_rows, one_here, nobody_here, chat_to, chat_to_group, login_of, print_object,
}

abbrev hello : Object
hello = chat_to (pos 4) (codes "hello")

abbrev two_users : World small
two_users = record { users = (pos 1, 9) ∷ (pos 2, 9) ∷ []; db = 0; trace = [] }

one_chat-Delivers_example :
    Delivers {P = small}
      (pos 4)
      (print_object hello)
      one_here
      (one_chat {P = small} 7 hello one_here)
unfolding lookup c_str bytes_beq fmt_int
one_chat-Delivers_example =
    one_chat-Delivers {P = small} (λ d. refl) 7 hello (pos 4) one_here refl (omega arith)

group_chat-DeliversAll_example :
    DeliversAll {P = small}
      (pos 4 ∷ pos 3 ∷ [])
      (print_object chat_to_group)
      one_here
      (group_chat {P = small} 7 chat_to_group one_here)
unfolding lookup c_str bytes_beq fmt_int GroupModel.query_group_users ◌>>=◌ select_rows atoi sprintf
    select_other_members_sql run_query
group_chat-DeliversAll_example =
    group_chat-DeliversAll {P = small} (λ d. refl) 7 chat_to_group (pos 1) (pos 5)
      (pos 4 ∷ pos 3 ∷ []) 0 one_here refl refl refl (omega arith, (omega arith, tt))

abbrev offline_user : User
offline_user = record {
  id = pos 1;
  name = codes "name";
  password = codes "secret";
  state = offline;
}

not_empty : {x : ℤ × ℕ} {xs : List (ℤ × ℕ)} → x ∷ xs ≢ []
not_empty e = cc

one_user : OneUser 30 one_here.users
unfolding lookup
one_user i j h k = ground (arith, int_beq_iff (pos 3) i, int_beq_iff (pos 3) j)

close_forgets_example :
    ((id : ℤ) → lookup id (after_close {P = small} 30 one_here) ≢ some 30)
    × ((id : ℤ) (c : ℕ)
        → c ≢ 30
        → lookup id one_here.users ≡ some c
        → lookup id (after_close {P = small} 30 one_here) ≡ some c)
unfolding lookup
close_forgets_example = close_forgets {P = small} 30 one_here (refl, tt) one_user

close_leaves_second_user_example :
    (k : ℤ) × (lookup k (after_close {P = small} 9 two_users) ≡ some 9)
unfolding lookup
close_leaves_second_user_example =
    close_leaves_second_user {P = small} 9 two_users (pos 1) (pos 2) (ground arith) refl refl

login_without_account_example :
    (login {P = small} 7 (login_of (negsuc 0) []) nobody_here).1.users ≡ (negsuc 0, 7) ∷ []
unfolding lookup insert select_rows select_user_sql bytes_beq fmt_int
login_without_account_example =
    login_without_account {P = small} 7 (login_of (negsuc 0) []) nobody_here (λ d. refl) (λ d. refl)
      refl refl

late_login_unregistered_example :
    let w' = (login_checked {P = small} 7 (pos 1) (codes "secret") offline_user nobody_here).1 in
    (login_checked {P = small} 8 (pos 1) (codes "secret") offline_user w'
      ≡ login_accept 8 (pos 1) offline_user w')
    × (lookup (pos 1) (login_checked {P = small} 8 (pos 1) (codes "secret") offline_user w').1.users
        ≡ some 7)
unfolding lookup
late_login_unregistered_example =
    late_login_unregistered {P = small} 7 8 (pos 1) (codes "secret") offline_user nobody_here
      (refl, refl, λ e. cc) refl

abbrev logout_of_three : Object
logout_of_three = login_of (pos 3) []

close_is_loginout_example :
    client_close_exception {P = small} 30 one_here ≡ loginout {P = small} 5 logout_of_three one_here
unfolding lookup bytes_beq
close_is_loginout_example =
    close_is_loginout {P = small} 30 5 logout_of_three (pos 3) one_here (refl, tt) one_user refl
      (λ e. cc) refl
