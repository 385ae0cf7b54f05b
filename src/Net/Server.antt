-- ===== src/Net/Server.antt =====
-- webserver/TcpServer.cpp and Acceptor.cpp: the connections of a server by name.
pub mod Names
pub mod Spreading
use high_performance_chatser.Prelude.{
  ℕ, pos, ◌+◌, Bool, true, false, Bytes, codes, List, [], ◌∷◌, ◌++◌, Option, none, some, take, Map,
  assign, erase, bytes_eq, eqb, if◌then◌else◌,
}
use high_performance_chatser.Prelude.Decimal.{fmt_int}
use high_performance_chatser.Net.LoopPool.{LoopPool, new_pool, set_thread_num, start, get_next_loop}

-- What a `TcpConnection` is created from.
pub record Peer : Type 0 where
  pub name : Bytes
  pub loop : ℕ
  pub sockfd : ℕ

-- What the server makes a loop run.
pub data Task : Type 0 where
  connect_established : Peer → Task
  connect_destroyed : Peer → Task
  listens : Task

pub record Server : Type 0 where
  pub ip_port : Bytes
  pub name : Bytes
  pub threadpool : LoopPool
  pub started : ℕ
  pub next_conn_id : ℕ
  pub connections : Map Bytes Peer
  pub tasks : List (ℕ × Task)  -- with their loops, in order

unfoldable pub new_server : (base_loop : ℕ) (ip_port name : Bytes) → Server
unfolding new_pool
new_server base_loop ip_port name = record {
  ip_port = ip_port;
  name = name;
  threadpool = new_pool base_loop;
  started = 0;
  next_conn_id = 1;
  connections = [];
  tasks = [];
}

unfoldable pub set_server_threads : ℕ → Server → Server
unfolding set_thread_num
set_server_threads n s = record s { threadpool = set_thread_num n s.threadpool }

-- `start`; only the first call does something.
unfoldable pub start_server : (ℕ → ℕ) → Server → Server
unfolding start
start_server start_loop s =
    let s' : Server = record s { started = s.started + 1 } in
    if eqb s.started 0
    then record s' {
      threadpool = start start_loop s.threadpool;
      tasks = s.tasks ++ (s.threadpool.base_loop, listens) ∷ [];
    }
    else s'

-- `snprintf` into `char buf[64]`.
unfoldable pub conn_suffix : Bytes → ℕ → Bytes
unfolding fmt_int
conn_suffix ip_port id = take 63 (codes "-" ++ (ip_port ++ (codes "#" ++ fmt_int (pos id))))

-- The connection object that `newConnection` creates.
unfoldable pub new_peer : ℕ → ℕ → Server → Peer
unfolding conn_suffix
new_peer loop sockfd s = record {
  name = s.name ++ conn_suffix s.ip_port s.next_conn_id;
  loop = loop;
  sockfd = sockfd;
}

-- `newConnection` on the loop that the pool has chosen.
unfoldable pub add_connection : ℕ → ℕ → Server → Server
unfolding new_peer assign
add_connection loop sockfd s =
    let peer = new_peer loop sockfd s in
    record s {
      next_conn_id = s.next_conn_id + 1;
      connections = assign peer.name peer s.connections;
      tasks = s.tasks ++ (loop, connect_established peer) ∷ [];
    }

-- `newConnection`; `none` is a loop out of range, or an overflow of `NextConnId`, an `int`.
unfoldable pub new_connection : ℕ → Server → Option Server
unfolding get_next_loop add_connection
new_connection sockfd s =
    let (chosen, pool) = get_next_loop s.threadpool in
    elim chosen [
      | none ↦ none
      | some loop ↦
          if eqb s.next_conn_id 2147483647
          then none
          else some (add_connection loop sockfd (record s { threadpool = pool }))
    ]

-- `removeConnection`, which runs `removeConnectionInLoop` in the base loop.
unfoldable pub remove_connection : Peer → Server → Server
unfolding erase
remove_connection peer s = record s {
  connections = erase peer.name s.connections;
  tasks = s.tasks ++ (peer.loop, connect_destroyed peer) ∷ [];
}

-- `~TcpServer`
abbrev pub destroy_tasks : Map Bytes Peer → List (ℕ × Task)
destroy_tasks [] = []
destroy_tasks ((name, peer) ∷ m) = (peer.loop, connect_destroyed peer) ∷ destroy_tasks m

unfoldable pub destroy_server : Server → Server
destroy_server s = record s { connections = []; tasks = s.tasks ++ destroy_tasks s.connections }

-- `Acceptor::handleRead` with the callback of the server, on what `accept` returns.
unfoldable pub handle_read : Option ℕ → Server → Option Server
unfolding new_connection
handle_read none s = some s
handle_read (some cfd) s = new_connection cfd s

-- The calls of `handleRead` that find these connections.
unfoldable pub accept_all : List ℕ → Server → Option Server
unfolding handle_read
accept_all [] s = some s
accept_all (fd ∷ fds) s = elim (handle_read (some fd) s) [
  | none ↦ none
  | some s' ↦ accept_all fds s'
]
