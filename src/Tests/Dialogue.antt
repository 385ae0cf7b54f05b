-- ===== src/Tests/Dialogue.antt =====
-- Runs of clients and servers together, on the platform with a JSON codec.
use high_performance_chatser.Prelude.{
  ℕ, pos, ◌+◌, ◌≡◌, refl, Bool, true, Bytes, codes, [], ◌∷◌, Option, some, arith, ok, lookup,
  assign, eqb, suc, zero, int_eq, bytes_eq, bytes_beq,
}
use high_performance_chatser.Prelude.Decimal.{fmt_int, atoi}
use high_performance_chatser.World.{World, sent, published, ◌>>=◌}
use high_performance_chatser.Model.Types.{User, default_user, online}
use high_performance_chatser.Model.Rows.{run_query, user_of_row}
use high_performance_chatser.Model.Statements.{select_user_sql, sprintf}
use high_performance_chatser.Model.UserModel
use high_performance_chatser.Service.Chats.{one_chat}
use high_performance_chatser.Service.Responses.{friend_json, with_friends, login_ok}
use high_performance_chatser.Service.Dispatch.{on_message, handle, notified}
use high_performance_chatser.Client.{Client, new_client, show}
use high_performance_chatser.Client.Commands.{menu_line}
use high_performance_chatser.Client.Responses.{receive}
use high_performance_chatser.Redis.{Hiredis, Redis, publish, observe}
use high_performance_chatser.Redis.Observer.{message, elements}
use high_performance_chatser.EndToEnd.Chatting.{chat_command, chat_text, chat_reaches_friend}
use high_performance_chatser.EndToEnd.LoggingIn.{logged_in, login_answer_read}
use high_performance_chatser.EndToEnd.TwoServers.{chat_crosses_servers}
use high_performance_chatser.Tests.Fixtures.{select_rows}
use high_performance_chatser.Tests.Codec.{coded, coded-JsonLaws, Object, print, parsed_back}

abbrev pub alice : User
alice = record default_user { id = pos 1; name = codes "alice" }

abbrev bob : User
bob = record default_user { id = pos 2; name = codes "bob" }

abbrev alices_client : Client
alices_client = record new_client { current_user = alice }

-- Bob is connected.
abbrev with_bob : World coded
with_bob = record { users = (pos 2, 20) ∷ []; db = 0; trace = [] }

abbrev pub nobody : World coded
nobody = record { users = []; db = 0; trace = [] }

chat_reaches_friend_example :
    (req : Bytes) × (menu_line coded true (chat_command (pos 2) (codes "hi:")) alices_client
      ≡ record alices_client { sent = req ∷ [] })
    × (on_message {P = coded} 10 req with_bob ≡ (
      ok tt,
      record with_bob {
        trace = sent 20 (chat_text coded alices_client (pos 2) (codes "hi:")) ∷ [];
      },
    ))
    × (receive coded (chat_text coded alices_client (pos 2) (codes "hi:")) new_client
        ≡ ok (show (codes "[1]alice said: hi:") new_client))
unfolding lookup fmt_int print assign bytes_beq
chat_reaches_friend_example =
    chat_reaches_friend {P = coded} coded-JsonLaws alices_client new_client 10 20 (pos 2)
      (codes "hi:") with_bob (omega arith) (refl, (refl, (refl, tt))) refl refl (omega arith)

login_answer_read_example :
    receive coded (coded.dump (with_friends coded (bob ∷ []) (login_ok coded alice))) new_client
    ≡ ok (logged_in alice (bob ∷ []) new_client)
unfolding print with_friends login_ok friend_json fmt_int lookup bytes_beq assign
login_answer_read_example =
    login_answer_read {P = coded} coded-JsonLaws alice (bob ∷ []) new_client (refl, tt) refl
      (omega arith)

-- A context holds the number of bytes that wait, and writes two at a time.
abbrev in_twos : ℕ → Option (Bool × ℕ)
in_twos zero = some (true, 0)
in_twos (suc zero) = some (true, 0)
in_twos (suc (suc n)) = some (eqb n 0, n)

abbrev twos : Hiredis
twos = record {
  Context = ℕ;
  command = λ args c. (true, c);
  append_command = λ args c. some (c + 20);
  buffer_write = in_twos;
}

abbrev subscribed_redis : Redis twos
subscribed_redis = record { publish_context = some 0; subscribe_context = some 0; observing = true }

abbrev with_four : World coded
with_four = record { users = (pos 4, 20) ∷ []; db = 0; trace = [] }

abbrev to_four : Object
to_four = (codes "toid", (0 ∷ []) ∷ (4 ∷ []) ∷ []) ∷ []

chat_crosses_servers_example :
    (one_chat {P = coded} 10 to_four nobody
      ≡ (ok tt, record nobody { trace = published (pos 4) (print to_four) ∷ [] }))
    × ((publish {H = twos} (pos 4) (print to_four) subscribed_redis).1 ≡ subscribed_redis)
    × (observe (elements (message (pos 4) (print to_four)) ∷ [])
        ≡ ((pos 4, print to_four) ∷ [], ok tt))
    × (handle {P = coded} (notified (pos 4) (print to_four)) with_four
        ≡ (ok tt, record with_four { trace = sent 20 (print to_four) ∷ [] }))
unfolding lookup UserModel.query ◌>>=◌ select_rows atoi sprintf select_user_sql run_query
    user_of_row bytes_beq fmt_int
chat_crosses_servers_example =
    chat_crosses_servers {P = coded} coded-JsonLaws {H = twos} 10 20 (print to_four) to_four (pos 4)
      nobody with_four
      (record { id = pos 4; name = codes "name"; password = codes "pwd"; state = online }) 0 0
      subscribed_redis (parsed_back to_four) refl refl refl refl refl refl
