-- ===== src/Pool/Leases.antt =====
-- The pool together with the connections that its clients hold.
use high_performance_chatser.Prelude.{
  ℕ, ◌+◌, ◌≤◌, ◌≡◌, ◌⊎◌, List, [], ◌∷◌, ◌++◌, some, arith, length, eqb, if◌then◌else◌,
}
use high_performance_chatser.Pool.{
  Connection, Config, Pool, new_pool, produce, get_connection, release, scan,
}

-- How often a connection stands in a list.
unfoldable pub count : ℕ → List Connection → ℕ
count n [] = 0
count n (c ∷ cs) = let rest = count n cs in if eqb c.number n then 1 + rest else rest

pub count-append : (n : ℕ) (cs ds : List Connection) → count n (cs ++ ds) ≡ count n cs + count n ds
unfolding count
count-append n [] ds = omega arith
count-append n (c ∷ cs) ds = ground (arith, count-append n cs ds)

pub record System : Type 0 where
  pub pool : Pool
  pub leased : List Connection

-- A critical section of the producer, of a client that takes or gives back a connection, or of the
-- scanner.
pub data Step : System → System → Type 0 where
  produces : {s : System} (now : ℕ) → Step s (record s { pool = produce now s.pool })
  takes :
      {s : System} {c : Connection} {p : Pool}
      → get_connection s.pool ≡ (some c, p)
      → Step s (record { pool = p; leased = c ∷ s.leased })
  gives_back :
      {p : Pool} (now : ℕ) (c : Connection) (before after : List Connection)
      → Step
          (record { pool = p; leased = before ++ c ∷ after })
          (record { pool = release now c p; leased = before ++ after })
  scans :
      {s : System} {p : Pool} (now : ℕ) → scan now s.pool ≡ some p → Step s (record s { pool = p })

pub data Reaches : System → System → Type 0 where
  here : {s : System} → Reaches s s
  then_step : {s t u : System} → Reaches s t → Step t u → Reaches s u

abbrev pub started : Config → ℕ → System
started config now = record { pool = new_pool config now; leased = [] }

-- The number of connections is right and in bounds, and no connection is in two places.
pub record IsConsistent (config : Config) (s : System) : Type 0 where
  pub same_config : s.pool.config ≡ config
  pub counted : s.pool.connection_cnt ≡ length s.pool.connection_queue + length s.leased
  pub bounded :
      (s.pool.connection_cnt ≤ config.max_size) ⊎ (s.pool.connection_cnt ≤ config.init_size)
  pub single : (n : ℕ) → count n s.pool.connection_queue + count n s.leased ≤ 1
  pub fresh : (n : ℕ) → s.pool.made ≤ n → count n s.pool.connection_queue + count n s.leased ≡ 0
