-- ===== src/Tests/Workers.antt =====
-- Runs of the connection pool, of its settings, of the loop threads and of the TCP server.
use high_performance_chatser.Prelude.{
  pos, Lacks, length, Bytes, true, Bool, ◌<◌, codes, All, lookup, assign, erase, bytes_eq,
  bytes_beq, ℕ, ◌%◌, ◌≡◌, ◌≢◌, refl, Option, List, [], ◌∷◌, none, some, arith, eqb, if◌then◌else◌,
  false,
}
use high_performance_chatser.Prelude.Decimal.{fmt_int}
use high_performance_chatser.Pool.Settings.{line_size, Settings, load_config_file}
use high_performance_chatser.Pool.Settings.Entries.{
  entry_line, IsEntry, print_entries, settings_entries, settings_round_trip,
}
use high_performance_chatser.Net.LoopPool.{get_next_loop}
use high_performance_chatser.Net.LoopThread.{
  Continues, over, LoopThread, sleeping, building, returned, entering, new_thread, look, looked,
  publish_loop, notified, starts, looks, inits, publishes, Reaches as Reaches_thread,
  here as thread_here, then_step as thread_step,
}
use high_performance_chatser.Net.LoopThread.Quitting.{quit_forgotten}
use high_performance_chatser.Net.LoopThread.Handshake.{
  IsAlive, inited, start_loop_can_return, start_loop_returns_loop,
}
use high_performance_chatser.Net.Address.{Inet, new_address, to_ip_port}
use high_performance_chatser.Net.Server.Spreading.{established}
use high_performance_chatser.Service.Startup.{main, connections_spread}
use high_performance_chatser.Net.Server.{
  accept_all, listens, Peer, Server, new_server, new_peer, conn_suffix, connect_established,
  connect_destroyed, add_connection, new_connection, remove_connection,
}
use high_performance_chatser.Net.Server.Names.{
  Tracked, accepts, removes, Reaches as Reaches_names, here as tracked_here,
  then_step as tracked_step, without_name, connections_stay,
}
use high_performance_chatser.Pool.{
  Config, scan, new_pool as new_connection_pool, push_many, push_new, get_connection, produce,
}
use high_performance_chatser.Pool.Leases.{
  System, Reaches, here, then_step, takes, produces, started, IsConsistent,
}
use high_performance_chatser.Pool.Consistent.{reached-IsConsistent}
use high_performance_chatser.Pool.Scanner.{scanner_reads_empty_queue}
use high_performance_chatser.Net.LoopPool.{new_pool}
use high_performance_chatser.Net.EventLoop.{EventLoop}

abbrev config : Config
config = record { init_size = 1; max_size = 4; max_idle_time = 60 }

-- The one connection is taken and another one made.
abbrev busy : System
busy = record {
  pool = record {
    config = config;
    connection_queue = record { number = 1; alivetime = 7 } ∷ [];
    connection_cnt = 2;
    made = 2;
  };
  leased = record { number = 0; alivetime = 5 } ∷ [];
}

busy_reached : Reaches (started config 5) busy
unfolding new_connection_pool push_many push_new get_connection produce
busy_reached = then_step (then_step here (takes refl)) (produces 7)

reached-IsConsistent_example : IsConsistent config busy
reached-IsConsistent_example = reached-IsConsistent config 5 busy busy_reached

scanner_reads_empty_queue_example :
    (s : System) × Reaches (started config 5) s × ((now : ℕ) → scan now s.pool ≡ none)
scanner_reads_empty_queue_example = scanner_reads_empty_queue config 5 (omega arith)

-- Functor 7 queues functor 8.
abbrev next_functors : ℕ → List ℕ
next_functors n = if eqb n 7 then 8 ∷ [] else []

abbrev waiting_loop : EventLoop ℕ
waiting_loop = record {
  pending_functors = 6 ∷ 7 ∷ [];
  calling_pending_functors = false;
  wakeups = 1;
  called = 5 ∷ [];
}

abbrev settings : Settings
settings = record {
  ip = codes "127.0.0.1";
  port = 3306;
  username = codes "root";
  password = codes "a=b";
  dbname = codes "chatserver";
  init_size = pos 10;
  max_size = pos 1024;
  max_idle_time = pos 60;
  connection_timeout = pos 100;
}

abbrev lacks : ℕ → Bytes → Bool
lacks c [] = true
lacks c (x ∷ xs) = if eqb x c then false else lacks c xs

lacks-Lacks : (c : ℕ) (xs : Bytes) → lacks c xs ≡ true → Lacks c xs
lacks-Lacks c [] h = tt
lacks-Lacks c (x ∷ xs) h =
    let here : eqb x c ≡ false = ground arith in
    let there : lacks c xs ≡ true = ground arith in (here, lacks-Lacks c xs there)

is_entry :
    (e : Bytes × Bytes)
    → lacks b'=' e.0 ≡ true
    → lacks b'\n' e.0 ≡ true
    → lacks b'\n' e.1 ≡ true
    → lacks 0 e.0 ≡ true
    → lacks 0 e.1 ≡ true
    → length (entry_line e) < line_size
    → IsEntry e
is_entry e h1 h2 h3 h4 h5 h6 = record {
  key_no_equals = lacks-Lacks b'=' e.0 h1;
  no_newline = (lacks-Lacks b'\n' e.0 h2, lacks-Lacks b'\n' e.1 h3);
  no_zero = (lacks-Lacks 0 e.0 h4, lacks-Lacks 0 e.1 h5);
  short = h6;
}

settings_round_trip_example :
    load_config_file (some (print_entries (settings_entries settings))) settings ≡ some settings
unfolding fmt_int
settings_round_trip_example = settings_round_trip settings settings (omega arith) (
  is_entry _ refl refl refl refl refl (omega arith),
  (
    is_entry _ refl refl refl refl refl (omega arith),
    (
      is_entry _ refl refl refl refl refl (omega arith),
      (
        is_entry _ refl refl refl refl refl (omega arith),
        (
          is_entry _ refl refl refl refl refl (omega arith),
          (
            is_entry _ refl refl refl refl refl (omega arith),
            (
              is_entry _ refl refl refl refl refl (omega arith),
              (
                is_entry _ refl refl refl refl refl (omega arith),
                (is_entry _ refl refl refl refl refl (omega arith), tt),
              ),
            ),
          ),
        ),
      ),
    ),
  ),
)

abbrev fresh_server : Server
fresh_server = new_server 0 (codes "127.0.0.1:u") (codes "ChatServer")

abbrev first_peer : Peer
first_peer = record { name = codes "ChatServer-127.0.0.1:u#1"; loop = 0; sockfd = 5 }

abbrev second_peer : Peer
second_peer = record { name = codes "ChatServer-127.0.0.1:u#2"; loop = 0; sockfd = 6 }

abbrev one_left : Tracked
one_left = record {
  server = record fresh_server {
    next_conn_id = 3;
    connections = (second_peer.name, second_peer) ∷ [];
    tasks =
        (0, connect_established first_peer)
        ∷ (0, connect_established second_peer)
        ∷ (0, connect_destroyed first_peer)
        ∷ [];
  };
  live = second_peer ∷ [];
}

one_left_reached : Reaches_names (record { server = fresh_server; live = [] }) one_left
unfolding new_server new_connection add_connection remove_connection without_name fmt_int bytes_beq
    conn_suffix new_peer get_next_loop new_pool assign erase
one_left_reached =
    tracked_step
      (tracked_step (tracked_step tracked_here (accepts 0 5 refl refl)) (accepts 0 6 refl refl))
      (removes first_peer)

connections_stay_example :
    All (λ (c : Peer). lookup c.name one_left.server.connections ≡ some c) (second_peer ∷ [])
unfolding new_server
connections_stay_example =
    connections_stay fresh_server one_left (omega arith) one_left_reached (omega arith)

-- The caller of `StartLoop` was faster than the thread, and sleeps.
abbrev asleep : LoopThread
asleep = record {
  starter = sleeping;
  worker = building;
  loop = none;
  called = [];
  quitting = false;
  joining = false;
}

asleep_reached : Reaches_thread 7 true new_thread asleep
unfolding look looked
asleep_reached = thread_step (thread_step thread_here (starts refl refl)) (looks refl)

start_loop_can_return_example :
    (t : LoopThread) × Continues 7 true asleep t × (t.starter ≡ returned (some 7))
start_loop_can_return_example = start_loop_can_return 7 true asleep asleep_reached

abbrev seven : Option ℕ
seven = some 7

abbrev served : LoopThread
served = record {
  starter = returned (some 7);
  worker = entering;
  loop = some 7;
  called = 7 ∷ [];
  quitting = false;
  joining = false;
}

served_reached : Reaches_thread 7 true new_thread served
unfolding look looked publish_loop notified
served_reached =
    thread_step (thread_step (thread_step asleep_reached (inits refl)) (publishes refl))
      (looks refl)

start_loop_returns_loop_example :
    (seven ≡ some 7)
    × (served.called ≡ inited 7 true)
    × (served.joining ≡ false → IsAlive 7 true served)
start_loop_returns_loop_example = start_loop_returns_loop 7 true served seven served_reached refl

quit_forgotten_example :
    (s : LoopThread) × Reaches_thread 7 true new_thread s
    × (s.joining ≡ true)
    × ((t : LoopThread) → Reaches_thread 7 true s t → t.worker ≢ over)
quit_forgotten_example = quit_forgotten 7 true

-- An address prints as a fixed text, and ports are in the order of the machine.
abbrev plain_inet : Inet
plain_inet = record {
  inet_addr = λ text. 1;
  inet_ntop = λ addr. codes "127.0.0.1";
  htons = λ n. n;
  ntohs = λ n. n;
}

connections_spread_example :
    (t : Server) × (accept_all (8 ∷ 9 ∷ []) (main plain_inet 99 (λ i. i)) ≡ some t)
    × (t.tasks
        ≡ (99, listens)
          ∷ established
              (λ i. i % 4)
              (codes "ChatServer")
              (to_ip_port plain_inet (new_address plain_inet 8000 (codes "127.0.0.1")))
              1
              (8 ∷ 9 ∷ []))
unfolding to_ip_port
connections_spread_example =
    connections_spread plain_inet 99 (λ i. i) (8 ∷ 9 ∷ []) (omega arith) (omega arith)
