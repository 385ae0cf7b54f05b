-- ===== src/Pool/Scanner.antt =====
-- The scanner of the pool while all connections are leased.
use high_performance_chatser.Prelude.{
  ℕ, ◌+◌, ◌<◌, ◌≡◌, refl, ap, List, [], ◌∷◌, some, none, arith, ltb, true,
}
use high_performance_chatser.Pool.{
  Connection, Config, Pool, push_new, new_pool, produce, get_connection, scan, scan_queue,
  with_queue,
}
use high_performance_chatser.Pool.Leases.{
  System, produces, takes, Reaches, here, then_step, started, count,
}
use high_performance_chatser.Pool.Consistent.{push_many_lem}

-- A system by its parts.
abbrev system : Config → List Connection → ℕ → ℕ → List Connection → System
system config cs cnt made leased = record {
  pool = record { config = config; connection_queue = cs; connection_cnt = cnt; made = made };
  leased = leased;
}

-- Clients can take all idle connections.
lease_all :
    {s : System} (config : Config) (cs : List Connection) (cnt made : ℕ) (leased : List Connection)
    → Reaches s (system config cs cnt made leased)
    → (all : List Connection) × Reaches s (system config [] cnt made all)
unfolding get_connection
lease_all config [] cnt made leased r = (leased, r)
lease_all config (c ∷ cs) cnt made leased r =
    lease_all config cs cnt made (c ∷ leased) (then_step r (takes refl))

-- One more connection is made and taken.
lease_one_more :
    {s : System} (config : Config) (cnt made : ℕ) (leased : List Connection)
    → cnt ≡ config.init_size
    → config.init_size < config.max_size
    → Reaches s (system config [] cnt made leased)
    → (t : System) × Reaches s t × ((now : ℕ) → scan now t.pool ≡ none)
unfolding produce push_new get_connection scan scan_queue with_queue
lease_one_more config cnt made leased e less r =
    let room : ltb cnt config.max_size ≡ true = ground arith in
    let over : ltb config.init_size (cnt + 1) ≡ true = ground arith in
    let c : Connection = record { number = made; alivetime = 0 } in
    let made_one : produce 0 (system config [] cnt made leased).pool
        ≡ (system config (c ∷ []) (cnt + 1) (made + 1) leased).pool =
      rw room refl in
    let found : get_connection (produce 0 (system config [] cnt made leased).pool)
        ≡ (some c, (system config [] (cnt + 1) (made + 1) leased).pool) =
      ap get_connection made_one in
    (
      system config [] (cnt + 1) (made + 1) (c ∷ leased),
      then_step (then_step r (produces 0)) (takes found),
      λ now. rw over refl,
    )

-- If the pool may grow beyond its initial size, it can come into a state in which the scanner reads
-- the front of an empty queue: all connections are leased then, and they are too many.
pub scanner_reads_empty_queue :
    (config : Config) (start : ℕ)
    → config.init_size < config.max_size
    → (s : System) × Reaches (started config start) s × ((now : ℕ) → scan now s.pool ≡ none)
unfolding new_pool
scanner_reads_empty_queue config start less =
    let first : Pool = record {
      config = config;
      connection_queue = [];
      connection_cnt = 0;
      made = 0;
    } in
    let q : Pool = new_pool config start in
    let (same, counted, sum, _, _) =
      push_many_lem config config.init_size start first refl refl (λ n. unfold count in omega arith)
        (λ n h. unfold count in refl) in
    let (all, r) = lease_all q.config q.connection_queue q.connection_cnt q.made [] here in
    let init : q.config.init_size ≡ config.init_size = ap (λ (k : Config). k.init_size) same in
    let max : q.config.max_size ≡ config.max_size = ap (λ (k : Config). k.max_size) same in
    lease_one_more q.config q.connection_cnt q.made all (omega arith) (omega arith) r
