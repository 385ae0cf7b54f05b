-- ===== src/Tests/Threads.antt =====
-- Two threads on the small platform: connection 30 closes while a login arrives on connection 7.
use high_performance_chatser.Prelude.{
  arith, insert, int_eq, bytes_beq, zero, suc, lookup, pos, ℕ, ◌≡◌, ◌≢◌, ◌⊎◌, refl, List, [], ◌∷◌,
  codes, none, some, Map, ℤ,
}
use high_performance_chatser.World
use high_performance_chatser.Model.UserModel
use high_performance_chatser.Model.Rows.{user_of_row}
use high_performance_chatser.Service.Threads.Entering.{HasLoggedIn, Passed, entries_have_logged_in}
use high_performance_chatser.Model.Statements.{c_str}
use high_performance_chatser.Prelude.Decimal.{fmt_int}
use high_performance_chatser.Service.Threads.Amid.{Ends, IsDelivered, one_chat_amid}
use high_performance_chatser.World.{Exec, ConnId}
use high_performance_chatser.World.Framed.{Framed}
use high_performance_chatser.Service.Sessions.{forget_connection}
use high_performance_chatser.Service.Messages.{get_handler, msg_handler_map}
use high_performance_chatser.Service.Dispatch.{Event, received, closed}
use high_performance_chatser.Service.Threads.{
  Thread, over, lock, unlock, calls, ◌>>=◌, locked, change_users,
}
use high_performance_chatser.Service.Threads.Handlers.{
  one_chat, thread_of, handle, on_message, run_handler, login, check, accept,
  client_close_exception, after_close,
}
use high_performance_chatser.Service.Threads.System.{
  Server, set_thread, idle_server, Reaches, here, begins, then_step, locks, calls_out, returns,
  Proceeds,
}
use high_performance_chatser.Service.Threads.Locking.{map_guarded}
use high_performance_chatser.Service.Threads.Progress.{every_handler_can_finish}
use high_performance_chatser.Tests.Fixtures.{
  chat_to, print_object, parse_text, select_rows, small, one_here, nobody_here,
}

abbrev both_begun : Server small
both_begun = record {
  world = one_here;
  threads =
      set_thread 1 (thread_of (received 7 (codes "login 1")))
        (set_thread 0 (thread_of (closed 30)) (λ i. over));
  owner = none;
  ended = none;
}

-- `clientCloseException` behind its lock.
abbrev forgets : Exec small (Map ℤ ConnId)
forgets = change_users (λ m. (forget_connection 30 m).1)

abbrev forgotten : Map ℤ ConnId → Thread small
forgotten users = unlock (after_close (forget_connection 30 users).0 (λ a. over))

abbrev one_locked : Server small
one_locked = record both_begun {
  owner = some 0;
  threads = set_thread 0 (Thread.calls forgets forgotten) both_begun.threads;
}

abbrev events : List (ℕ × Event)
events = (1, received 7 (codes "login 1")) ∷ (0, closed 30) ∷ []

Reaches-both_begun : Reaches (idle_server one_here) events both_begun
Reaches-both_begun =
    begins 1 (received 7 (codes "login 1")) (begins 0 (closed 30) here refl refl) refl refl

Reaches-one_locked : Reaches (idle_server one_here) events one_locked
unfolding handle client_close_exception locked ◌>>=◌
Reaches-one_locked = then_step 0 Reaches-both_begun (locks refl refl refl)

map_guarded_example : (one_locked.owner ≡ some 0) ⊎ Framed forgets
map_guarded_example =
    map_guarded one_here events one_locked 0 forgets forgotten Reaches-one_locked refl

every_handler_can_finish_example :
    (s' : Server small) × Proceeds one_locked s' × ((s'.ended ≢ none) ⊎ (s'.threads 1 ≡ over))
every_handler_can_finish_example =
    every_handler_can_finish one_here events one_locked 1 Reaches-one_locked refl

-- The next step of a thread.
abbrev next_step : ℕ → Server small → Server small
next_step i s = elim (s.threads i) [
  | over ↦ s
  | lock t ↦ record s { owner = some i; threads = set_thread i t s.threads }
  | unlock t ↦ record s { owner = none; threads = set_thread i t s.threads }
  | calls m k ↦ returns i k (m s.world) s
]

abbrev steps_of : ℕ → ℕ → Server small → Server small
steps_of i zero s = s
steps_of i (suc n) s = next_step i (steps_of i n s)

abbrev login_begun : Server small
login_begun = record (idle_server nobody_here) {
  threads = set_thread 1 (thread_of (received 7 (codes "login 1"))) (λ i. over);
}

abbrev login_event : List (ℕ × Event)
login_event = (1, received 7 (codes "login 1")) ∷ []

-- `login` up to the insertion.
Reaches-inserted : Reaches (idle_server nobody_here) login_event (steps_of 1 7 login_begun)
unfolding handle on_message run_handler login check accept locked ◌>>=◌ returns get_handler
    msg_handler_map lookup select_rows parse_text bytes_beq UserModel.query World.◌>>=◌ user_of_row
Reaches-inserted =
    then_step 1
      (then_step 1
        (then_step 1
          (then_step 1
            (then_step 1
              (then_step 1
                (then_step 1 (begins 1 (received 7 (codes "login 1")) here refl refl)
                  (calls_out refl refl))
                (calls_out refl refl))
              (calls_out refl refl))
            (calls_out refl refl))
          (calls_out refl refl))
        (locks refl refl refl))
      (calls_out refl refl)

entries_have_logged_in_example :
    (lookup (pos 1) nobody_here.users ≡ some 7)
    ⊎ HasLoggedIn (Passed Reaches-inserted) login_event (pos 1) 7
unfolding lookup select_rows parse_text bytes_beq UserModel.query World.◌>>=◌ user_of_row handle
    on_message run_handler login check accept locked ◌>>=◌ returns get_handler msg_handler_map
    insert change_users
entries_have_logged_in_example =
    entries_have_logged_in nobody_here login_event (steps_of 1 7 login_begun) Reaches-inserted
      (pos 1) 7 refl

-- A message to user 2 in the worlds in which user 2 is not connected or has connection 30.
one_chat_amid_example :
    Ends {P = small}
      (λ w. (lookup (pos 2) w.users ≡ none) ⊎ (lookup (pos 2) w.users ≡ some 30))
      (IsDelivered {P = small}
        (λ w. (lookup (pos 2) w.users ≡ none) ⊎ (lookup (pos 2) w.users ≡ some 30))
        (pos 2)
        (print_object (chat_to (pos 2) (codes "hello"))))
      (one_chat 7 (chat_to (pos 2) (codes "hello")) (λ _. over))
unfolding lookup c_str bytes_beq fmt_int
one_chat_amid_example =
    one_chat_amid {P = small}
      (λ w. (lookup (pos 2) w.users ≡ none) ⊎ (lookup (pos 2) w.users ≡ some 30)) 7
      (chat_to (pos 2) (codes "hello")) (pos 2) (λ d. refl) refl (omega arith)
