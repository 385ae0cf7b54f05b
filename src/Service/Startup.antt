-- ===== src/Service/Startup.antt =====
-- The constructor and `start` of chatserver.cpp, and `main` of server.cpp up to its loop.
use high_performance_chatser.Prelude.{
  ℕ, arith, ◌%◌, ◌≤◌, ◌<◌, ◌≡◌, Bytes, codes, List, ◌∷◌, some, length,
}
use high_performance_chatser.Net.Address.{Inet, InetAddress, new_address, to_ip_port}
use high_performance_chatser.Net.LoopPool.{new_pool, set_thread_num, start}
use high_performance_chatser.Net.LoopPool.RoundRobin.{round_robin}
use high_performance_chatser.Net.Server.{
  Server, listens, new_server, set_server_threads, start_server, accept_all,
}
use high_performance_chatser.Net.Server.Spreading.{established, accept_all_lem}

module _ (I : Inet) where
  -- The callbacks are left out.
  unfoldable pub new_chat_server : (loop : ℕ) → InetAddress → (name : Bytes) → Server
  unfolding new_server set_server_threads to_ip_port
  new_chat_server loop addr name = set_server_threads 4 (new_server loop (to_ip_port I addr) name)

  -- `main`, with the base loop `loop`; thread `i` of the pool runs the loop `start_loop i`.
  unfoldable pub main : (loop : ℕ) (start_loop : ℕ → ℕ) → Server
  unfolding new_chat_server start_server new_address
  main loop start_loop =
      start_server start_loop
        (new_chat_server loop (new_address I 8000 (codes "127.0.0.1")) (codes "ChatServer"))

-- If the server's address prints to 51 characters at most: whatever connections the started chat
-- server accepts, as long as `NextConnId` stays in an `int`, all are accepted; the base loop is made
-- to listen first, and then connection number i, counted from 0, is established once, in order, in
-- the loop of thread i modulo 4, under the name that ends in `#` and the number i + 1.
pub connections_spread :
    (I : Inet) (loop : ℕ) (start_loop : ℕ → ℕ) (fds : List ℕ)
    → length (to_ip_port I (new_address I 8000 (codes "127.0.0.1"))) ≤ 51
    → length fds < 2147483647
    → (t : Server) × (accept_all fds (main I loop start_loop) ≡ some t)
      × (t.tasks
          ≡ (loop, listens)
            ∷ established
                (λ i. start_loop (i % 4))
                (codes "ChatServer")
                (to_ip_port I (new_address I 8000 (codes "127.0.0.1")))
                1
                fds)
unfolding main start_server new_server set_server_threads new_chat_server set_thread_num new_pool
    start
connections_spread I loop start_loop fds short small =
    accept_all_lem fds (λ i. start_loop (i % 4)) (main I loop start_loop) short (omega arith)
      (λ i lt. round_robin start_loop loop 3 (length fds) i lt)
