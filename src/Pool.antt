-- ===== src/Pool.antt =====
-- mysql/Connectionpool.cpp: the queue of idle database connections, the number of all connections,
-- and the critical sections of the threads that share them. Sizes and times of mysql.cnf are natural
-- numbers; the clock is an argument.
pub mod Leases
pub mod Consistent
pub mod Scanner
pub mod Settings
use high_performance_chatser.Prelude.{
  Bool, true, false, ◌&&◌, ℕ, zero, suc, ◌+◌, ◌-◌, ◌*◌, List, [], ◌∷◌, ◌++◌, Option, none, some,
  ltb, leb, if◌then◌else◌,
}

-- `Connection`, known by its number; `alivetime` is when it was last put into the queue.
pub record Connection : Type 0 where
  pub number : ℕ
  pub alivetime : ℕ

unfoldable pub get_alive_time : ℕ → Connection → ℕ
get_alive_time now c = now - c.alivetime

abbrev pub refresh_alive_time : ℕ → Connection → Connection
refresh_alive_time now c = record c { alivetime = now }

-- What the configuration file gives.
pub record Config : Type 0 where
  pub init_size : ℕ
  pub max_size : ℕ
  pub max_idle_time : ℕ

-- `made` numbers the connections; the program knows them by their addresses.
pub record Pool : Type 0 where
  pub config : Config
  pub connection_queue : List Connection
  pub connection_cnt : ℕ
  pub made : ℕ

-- A new connection at the end of the queue.
unfoldable pub push_new : ℕ → Pool → Pool
push_new now p = record p {
  connection_queue = p.connection_queue ++ record { number = p.made; alivetime = now } ∷ [];
  connection_cnt = p.connection_cnt + 1;
  made = p.made + 1;
}

-- The loop of the constructor.
unfoldable pub push_many : ℕ → ℕ → Pool → Pool
unfolding push_new
push_many zero now p = p
push_many (suc n) now p = push_many n now (push_new now p)

-- The constructor, once the configuration is read.
unfoldable pub new_pool : Config → ℕ → Pool
unfolding push_many
new_pool config now =
    push_many config.init_size now
      (record { config = config; connection_queue = []; connection_cnt = 0; made = 0 })

abbrev pub empty : List Connection → Bool
empty [] = true
empty (c ∷ cs) = false

-- A round of `produceConnectionTask`, which waits while the queue is not empty.
unfoldable pub produce : ℕ → Pool → Pool
unfolding push_new
produce now p =
    if empty p.connection_queue && ltb p.connection_cnt p.config.max_size then push_new now p else p

-- `getConnection`: the front of the queue, or the null pointer after a wait that was in vain.
unfoldable pub get_connection : Pool → Option Connection × Pool
get_connection p = elim p.connection_queue [
  | [] ↦ (none, p)
  | c ∷ cs ↦ (some c, record p { connection_queue = cs })
]

-- The deleter of the pointer that `getConnection` returns.
unfoldable pub release : ℕ → Connection → Pool → Pool
release now c p = record p {
  connection_queue = p.connection_queue ++ refresh_alive_time now c ∷ [];
}

-- The loop of `scannerConnectionTask` over the queue; `none` is `front()` of an empty queue.
unfoldable pub scan_queue : Config → ℕ → List Connection → ℕ → Option (List Connection × ℕ)
unfolding get_alive_time
scan_queue config now [] cnt = if ltb config.init_size cnt then none else some ([], cnt)
scan_queue config now (c ∷ cs) cnt =
    let rest = scan_queue config now cs (cnt - 1) in
    if ltb config.init_size cnt
    then (if leb (config.max_idle_time * 1000) (get_alive_time now c)
        then rest
        else some (c ∷ cs, cnt))
    else some (c ∷ cs, cnt)

unfoldable pub with_queue : Pool → Option (List Connection × ℕ) → Option Pool
with_queue p none = none
with_queue p (some (cs, cnt)) = some (record p { connection_queue = cs; connection_cnt = cnt })

unfoldable pub scan : ℕ → Pool → Option Pool
unfolding scan_queue with_queue
scan now p = with_queue p (scan_queue p.config now p.connection_queue p.connection_cnt)
