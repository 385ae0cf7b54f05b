-- ===== src/Pool/Consistent.antt =====
-- Every critical section of the pool keeps its count right and its connections in one place.
use high_performance_chatser.Prelude.{
  ℕ, zero, suc, ◌+◌, ◌-◌, ◌≤◌, ◌<◌, ◌≡◌, ◌≢◌, ◌∙◌, sym, refl, ap, subst, ◌⊎◌, inl, inr, ◌&&◌, List,
  [], ◌∷◌, ◌++◌, Option, none, some, arith, length, length-append, ltb, Bool-cases, Option-cases,
}
use high_performance_chatser.Pool.{
  Connection, refresh_alive_time, Config, Pool, empty, push_new, push_many, new_pool, produce,
  get_connection, release, scan_queue, with_queue, scan,
}
use high_performance_chatser.Pool.Leases.{
  count, count-append, System, Step, produces, takes, gives_back, scans, Reaches, here, then_step,
  started, IsConsistent,
}

pub push_many_lem :
    (config : Config) (k now : ℕ) (p : Pool)
    → p.config ≡ config
    → p.connection_cnt ≡ length p.connection_queue
    → ((n : ℕ) → count n p.connection_queue ≤ 1)
    → ((n : ℕ) → p.made ≤ n → count n p.connection_queue ≡ 0)
    → let q = push_many k now p in
      (q.config ≡ config)
      × (q.connection_cnt ≡ length q.connection_queue)
      × (q.connection_cnt ≡ p.connection_cnt + k)
      × ((n : ℕ) → count n q.connection_queue ≤ 1)
      × ((n : ℕ) → q.made ≤ n → count n q.connection_queue ≡ 0)
unfolding push_many push_new count
push_many_lem config zero now p e cnt one new = (e, cnt, omega arith, one, new)
push_many_lem config (suc k) now p e cnt one new =
    let c : Connection = record { number = p.made; alivetime = now } in
    let (e', cnt', sum, one', new') =
      push_many_lem config k now (push_new now p) e
        (omega (arith, length-append p.connection_queue (c ∷ [])))
        (λ n. ground (arith, count-append n p.connection_queue (c ∷ []), one n, new n))
        (λ n h. ground (arith, count-append n p.connection_queue (c ∷ []), new n)) in
    (e', cnt', omega arith, one', new')

started-IsConsistent : (config : Config) (now : ℕ) → IsConsistent config (started config now)
unfolding new_pool count
started-IsConsistent config now =
    let empty : Pool = record {
      config = config;
      connection_queue = [];
      connection_cnt = 0;
      made = 0;
    } in
    let (e, cnt, sum, one, new) =
      push_many_lem config config.init_size now empty refl refl (λ n. omega arith) (λ n h. refl) in
    record {
      same_config = e;
      counted = omega arith;
      bounded = inr (omega arith);
      single = λ n. omega (arith, one n);
      fresh = λ n h. omega (arith, new n h);
    }

-- What the scanner leaves of the queue.
scan_queue_lem :
    (config : Config) (now : ℕ) (cs : List Connection) (cnt : ℕ) (ds : List Connection) (left n : ℕ)
    → scan_queue config now cs cnt ≡ some (ds, left)
    → (left ≤ cnt) × (cnt + length ds ≡ left + length cs) × (count n ds ≤ count n cs)
unfolding scan_queue count
scan_queue_lem config now [] cnt ds left n h = ground arith
scan_queue_lem config now (c ∷ cs) cnt ds left n h =
    ground (arith, scan_queue_lem config now cs (cnt - 1) ds left n)

scan-IsConsistent :
    {config : Config} {s : System} {p : Pool} (now : ℕ)
    → IsConsistent config s
    → scan now s.pool ≡ some p
    → IsConsistent config (record s { pool = p })
unfolding scan with_queue
scan-IsConsistent {config} {s} {p} now v h =
    elim (Option-cases
      (scan_queue s.pool.config now s.pool.connection_queue s.pool.connection_cnt)) [
        | inl none_left ↦ cc
        | inr ((ds, left), e) ↦
            let found : p ≡ record s.pool { connection_queue = ds; connection_cnt = left } =
              let done : scan now s.pool
                  ≡ some (record s.pool { connection_queue = ds; connection_cnt = left }) =
                rw (e, scan) refl in
              ap (λ o. elim o [ none ↦ p | some r ↦ r ]) (sym h ∙ done) in
            let kept : (n : ℕ)
                → (left ≤ s.pool.connection_cnt)
                  × (s.pool.connection_cnt + length ds ≡ left + length s.pool.connection_queue)
                  × (count n ds ≤ count n s.pool.connection_queue) =
              λ n.
                scan_queue_lem s.pool.config now s.pool.connection_queue s.pool.connection_cnt ds
                  left n e in
            subst (λ q. IsConsistent config (record s { pool = q })) (sym found)
              (record {
                same_config = v.same_config;
                counted = omega (arith, kept 0, v.counted);
                bounded = ground (arith, kept 0, v.bounded);
                single = λ n. omega (arith, kept n, v.single n);
                fresh = λ n old. omega (arith, kept n, v.fresh n old);
              })
      ]

none_is_not_some : {c : Connection} → none ≢ some c
none_is_not_some h = cc

List-cases :
    (cs : List Connection) → (cs ≡ []) ⊎ ((c : Connection) × (ds : List Connection) × (cs ≡ c ∷ ds))
List-cases [] = inl refl
List-cases (c ∷ cs) = inr (c, cs, refl)

push_new-IsConsistent :
    {config : Config} {s : System} (now : ℕ)
    → IsConsistent config s
    → s.pool.connection_cnt < config.max_size
    → IsConsistent config (record s { pool = push_new now s.pool })
unfolding push_new count
push_new-IsConsistent {config} {s} now v less =
    let c : Connection = record { number = s.pool.made; alivetime = now } in
    record {
      same_config = v.same_config;
      counted = omega (arith, v.counted, length-append s.pool.connection_queue (c ∷ []));
      bounded = inl (omega arith);
      single = λ n.
          ground (arith, v.single n, v.fresh n, count-append n s.pool.connection_queue (c ∷ []));
      fresh = λ n old. ground (arith, v.fresh n, count-append n s.pool.connection_queue (c ∷ []));
    }

produce-IsConsistent :
    {config : Config} {s : System} (now : ℕ)
    → IsConsistent config s
    → IsConsistent config (record s { pool = produce now s.pool })
unfolding produce
produce-IsConsistent {config} {s} now v =
    elim (Bool-cases
      (empty s.pool.connection_queue && ltb s.pool.connection_cnt s.pool.config.max_size)) [
        | inl goes ↦ rw goes (
            push_new-IsConsistent now v
              (ground (arith, ap (λ (k : Config). k.max_size) v.same_config)))
        | inr waits ↦ rw waits v
      ]

take-IsConsistent :
    {config : Config} {s : System} {c : Connection} {p : Pool}
    → IsConsistent config s
    → get_connection s.pool ≡ (some c, p)
    → IsConsistent config (record { pool = p; leased = c ∷ s.leased })
unfolding get_connection count
take-IsConsistent {config} {s} {c} {p} v h = elim (List-cases s.pool.connection_queue) [
  | inl e ↦
      let q : (get_connection s.pool).0 ≡ none = rw (e, get_connection) refl in
      absurd (none_is_not_some (sym q ∙ ap (λ r. r.0) h))
  | inr (d, ds, e) ↦
      let q : get_connection s.pool ≡ (some d, record s.pool { connection_queue = ds }) =
        rw (e, get_connection) refl in
      let same : ◌≡◌ {A = Option Connection × Pool}
          (some d, record s.pool { connection_queue = ds }) (some c, p) =
        sym q ∙ h in
      let same_c : d ≡ c = ap (λ r. elim r.0 [ none ↦ d | some x ↦ x ]) same in
      let same_p : record s.pool { connection_queue = ds } ≡ p = ap (λ r. r.1) same in
      subst (λ x. IsConsistent config (record { pool = p; leased = x ∷ s.leased })) same_c
        (subst (λ x. IsConsistent config (record { pool = x; leased = d ∷ s.leased })) same_p
          (record {
            same_config = v.same_config;
            counted = omega (arith, v.counted, ap (λ (xs : List Connection). length xs) e);
            bounded = v.bounded;
            single = λ n. ground (arith, v.single n, ap (count n) e);
            fresh = λ n old. ground (arith, v.fresh n old, ap (count n) e);
          }))
]

release-IsConsistent :
    {config : Config} {p : Pool} (now : ℕ) (c : Connection) (before after : List Connection)
    → IsConsistent config (record { pool = p; leased = before ++ c ∷ after })
    → IsConsistent config (record { pool = release now c p; leased = before ++ after })
unfolding release count
release-IsConsistent {p = p} now c before after v =
    let c' = refresh_alive_time now c in
    let lens = λ (xs ys : List Connection). length-append xs ys in
    record {
      same_config = v.same_config;
      counted = omega (
        arith,
        v.counted,
        lens before (c ∷ after),
        lens before after,
        lens p.connection_queue (c' ∷ []),
      );
      bounded = v.bounded;
      single = λ n. ground (
        arith,
        v.single n,
        count-append n before (c ∷ after),
        count-append n before after,
        count-append n p.connection_queue (c' ∷ []),
      );
      fresh = λ n old. ground (
        arith,
        v.fresh n old,
        count-append n before (c ∷ after),
        count-append n before after,
        count-append n p.connection_queue (c' ∷ []),
      );
    }

step-IsConsistent :
    {config : Config} {s t : System} → Step s t → IsConsistent config s → IsConsistent config t
step-IsConsistent (produces now) v = produce-IsConsistent now v
step-IsConsistent (takes h) v = take-IsConsistent v h
step-IsConsistent (gives_back now c before after) v = release-IsConsistent now c before after v
step-IsConsistent (scans now h) v = scan-IsConsistent now v h

steps-IsConsistent :
    {config : Config} {s t : System} → Reaches s t → IsConsistent config s → IsConsistent config t
steps-IsConsistent here v = v
steps-IsConsistent (then_step r step) v = step-IsConsistent step (steps-IsConsistent r v)

-- Whatever the threads do with the pool, in whatever order: `connectionCnt` is the number of the
-- idle and the leased connections, it stays within the larger of `maxSize` and `initSize`, and no
-- connection is idle twice, leased to two clients, or both idle and leased.
pub reached-IsConsistent :
    (config : Config) (now : ℕ) (s : System)
    → Reaches (started config now) s
    → IsConsistent config s
reached-IsConsistent config now s r = steps-IsConsistent r (started-IsConsistent config now)
