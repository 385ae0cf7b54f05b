-- ===== src/Net/Server/Names.antt =====
-- Every connection has a name of its own, so none displaces another in the map.
use high_performance_chatser.Prelude.{
  ℕ, pos, ◌≤◌, ◌<◌, ◌≡◌, ◌∙◌, sym, refl, ap, subst, inl, inr, true, false, Bytes, codes, List, [],
  ◌∷◌, ◌++◌, none, some, arith, length, length-append, drop, drop-append, take_all, All, lookup,
  lookup-assign, lookup-erase, bytes_eq, bytes_beq_iff, ◌==◌, eqb, if◌then◌else◌, Bool-cases,
}
use high_performance_chatser.Prelude.Decimal.{fmt_int, atoi, atoi_whole, length-fmt_int}
use high_performance_chatser.Net.LoopPool.{get_next_loop}
use high_performance_chatser.Net.Server.{
  Peer, Server, conn_suffix, new_peer, add_connection, new_connection, remove_connection,
}

abbrev pub max_int : ℕ
max_int = 2147483648

-- The name of the connection with number `id`.
abbrev pub conn_name : Server → ℕ → Bytes
conn_name s id = s.name ++ conn_suffix s.ip_port id

pub conn_suffix_whole :
    (ip_port : Bytes) (id : ℕ)
    → length ip_port ≤ 51
    → id < max_int
    → conn_suffix ip_port id ≡ codes "-" ++ (ip_port ++ (codes "#" ++ fmt_int (pos id)))
unfolding conn_suffix
conn_suffix_whole ip_port id short small = take_all 63 _ (
    omega (
      arith,
      length-append ip_port (codes "#" ++ fmt_int (pos id)),
      length-fmt_int 9 id (omega arith),
    ))

conn_name-injective :
    (s : Server) (i j : ℕ)
    → length s.ip_port ≤ 51
    → i < max_int
    → j < max_int
    → conn_name s i ≡ conn_name s j
    → i ≡ j
conn_name-injective s i j short hi hj e =
    let suffix : conn_suffix s.ip_port i ≡ conn_suffix s.ip_port j =
      sym (drop-append s.name (conn_suffix s.ip_port i))
      ∙ ap (drop (length s.name)) e
      ∙ drop-append s.name (conn_suffix s.ip_port j) in
    let number : (k : ℕ)
        → k < max_int
        → drop (length s.ip_port) (drop 1 (conn_suffix s.ip_port k)) ≡ b'#' ∷ fmt_int (pos k) =
      λ k hk.
        ap (λ t. drop (length s.ip_port) (drop 1 t)) (conn_suffix_whole s.ip_port k short hk)
        ∙ drop-append s.ip_port (codes "#" ++ fmt_int (pos k)) in
    let texts : b'#' ∷ fmt_int (pos i) ≡ b'#' ∷ fmt_int (pos j) =
      sym (number i hi) ∙ ap (λ t. drop (length s.ip_port) (drop 1 t)) suffix ∙ number j hj in
    let ints : pos i ≡ pos j =
      sym (atoi_whole (pos i)) ∙ ap (λ t. atoi (drop 1 t)) texts ∙ atoi_whole (pos j) in
    ap (λ z. elim z [ pos n ↦ n | _ ↦ 0 ]) ints

-- The server with the connections that were accepted and not removed since.
pub record Tracked : Type 0 where
  pub server : Server
  pub live : List Peer

unfoldable pub without_name : Bytes → List Peer → List Peer
without_name name [] = []
without_name name (c ∷ cs) =
    let rest = without_name name cs in if name == c.name then rest else c ∷ rest

pub data Step (t : Tracked) : Tracked → Type 0 where
  accepts :
      {s : Server} (loop sockfd : ℕ)
      → (get_next_loop t.server.threadpool).0 ≡ some loop
      → new_connection sockfd t.server ≡ some s
      → Step t (record { server = s; live = new_peer loop sockfd t.server ∷ t.live })
  removes :
      (peer : Peer)
      → Step t (record {
        server = remove_connection peer t.server;
        live = without_name peer.name t.live;
      })

pub data Reaches (t : Tracked) : Tracked → Type 0 where
  here : Reaches t t
  then_step : {u v : Tracked} → Reaches t u → Step u v → Reaches t v

-- A connection has its number's name, and the map finds it under this name.
abbrev IsRegistered : Server → Peer → Type 0
IsRegistered s c =
    ((id : ℕ) × (id < s.next_conn_id) × (c.name ≡ conn_name s id))
    × (lookup c.name s.connections ≡ some c)

record IsTracked (ip_port : Bytes) (t : Tracked) : Type 0 where
  same_ip_port : t.server.ip_port ≡ ip_port
  registered : All (IsRegistered t.server) t.live

removed-IsRegistered :
    (s : Server) (peer c : Peer)
    → IsRegistered s c
    → (peer.name == c.name) ≡ false
    → IsRegistered (remove_connection peer s) c
unfolding remove_connection
removed-IsRegistered s peer c (named, found) other =
    (named, lookup-erase peer.name c.name s.connections ∙ rw other found)

removed-All :
    (s : Server) (peer : Peer) (cs : List Peer)
    → All (IsRegistered s) cs
    → All (IsRegistered (remove_connection peer s)) (without_name peer.name cs)
unfolding without_name
removed-All s peer [] v = tt
removed-All s peer (c ∷ cs) (v, vs) = elim (Bool-cases (peer.name == c.name)) [
  | inl same ↦ rw same (removed-All s peer cs vs)
  | inr other ↦ rw other (removed-IsRegistered s peer c v other, removed-All s peer cs vs)
]

added-IsRegistered :
    (loop sockfd : ℕ) (s : Server) (c : Peer)
    → length s.ip_port ≤ 51
    → s.next_conn_id < max_int
    → IsRegistered s c
    → IsRegistered (add_connection loop sockfd s) c
unfolding add_connection new_peer
added-IsRegistered loop sockfd s c short small ((id, old, e), found) =
    let peer = new_peer loop sockfd s in
    let differ : (peer.name == c.name) ≡ false = elim (Bool-cases (peer.name == c.name)) [
      | inl same ↦ absurd (
          let k =
            conn_name-injective s s.next_conn_id id short small (omega arith)
              ((bytes_beq_iff peer.name c.name).0 same ∙ e) in
          omega arith)
      | inr other ↦ other
    ] in
    ((id, omega arith, e), lookup-assign peer.name c.name peer s.connections ∙ rw differ found)

added-All :
    (loop sockfd : ℕ) (s : Server) (cs : List Peer)
    → length s.ip_port ≤ 51
    → s.next_conn_id < max_int
    → All (IsRegistered s) cs
    → All (IsRegistered (add_connection loop sockfd s)) cs
added-All loop sockfd s [] short small v = tt
added-All loop sockfd s (c ∷ cs) short small (v, vs) =
    (added-IsRegistered loop sockfd s c short small v, added-All loop sockfd s cs short small vs)

new-IsRegistered :
    (loop sockfd : ℕ) (s : Server)
    → IsRegistered (add_connection loop sockfd s) (new_peer loop sockfd s)
unfolding add_connection new_peer
new-IsRegistered loop sockfd s =
    let name = conn_name s s.next_conn_id in
    let same : (name == name) ≡ true = (bytes_beq_iff name name).1 refl in
    ((s.next_conn_id, omega arith, refl), lookup-assign name name _ s.connections ∙ rw same refl)

new_connection_lem :
    (loop sockfd : ℕ) (s s' : Server)
    → (get_next_loop s.threadpool).0 ≡ some loop
    → new_connection sockfd s ≡ some s'
    → s' ≡ add_connection loop sockfd (record s { threadpool = (get_next_loop s.threadpool).1 })
unfolding new_connection
new_connection_lem loop sockfd s s' chosen h =
    let s1 : Server = record s { threadpool = (get_next_loop s.threadpool).1 } in
    let bounded : new_connection sockfd s
        ≡ (if eqb s.next_conn_id 2147483647 then none else some (add_connection loop sockfd s1)) =
      ap
        (λ o. elim o [
          | none ↦ none
          | some l ↦
              if eqb s.next_conn_id 2147483647 then none else some (add_connection l sockfd s1)
        ])
        chosen in
    elim (Bool-cases (eqb s.next_conn_id 2147483647)) [
      | inl last ↦ absurd (let e : none ≡ some s' = sym (bounded ∙ rw last refl) ∙ h in cc)
      | inr other ↦
          let done : new_connection sockfd s ≡ some (add_connection loop sockfd s1) =
            bounded ∙ rw other refl in
          ap (λ o. elim o [ none ↦ s' | some r ↦ r ]) (sym h ∙ done)
    ]

next_conn_id_grows : {t u : Tracked} → Step t u → t.server.next_conn_id ≤ u.server.next_conn_id
unfolding remove_connection add_connection
next_conn_id_grows {t} (accepts {s} loop sockfd chosen h) =
    let e = new_connection_lem loop sockfd t.server s chosen h in rw e (omega arith)
next_conn_id_grows (removes peer) = omega arith

step-IsTracked :
    {ip_port : Bytes} {t u : Tracked}
    → length ip_port ≤ 51
    → Step t u
    → u.server.next_conn_id ≤ max_int
    → IsTracked ip_port t
    → IsTracked ip_port u
unfolding remove_connection add_connection new_peer
step-IsTracked {ip_port} {t} short (accepts {s} loop sockfd chosen h) small v =
    let s1 : Server = record t.server { threadpool = (get_next_loop t.server.threadpool).1 } in
    let e : s ≡ add_connection loop sockfd s1 =
      new_connection_lem loop sockfd t.server s chosen h in
    let fits : length s1.ip_port ≤ 51 =
      omega (arith, ap (λ (b : Bytes). length b) v.same_ip_port) in
    let below : s1.next_conn_id < max_int = omega (arith, ap (λ (r : Server). r.next_conn_id) e) in
    subst
      (λ r.
        IsTracked ip_port (record { server = r; live = new_peer loop sockfd t.server ∷ t.live }))
      (sym e)
      (record {
        same_ip_port = v.same_ip_port;
        registered = (
          new-IsRegistered loop sockfd s1,
          added-All loop sockfd s1 t.live fits below v.registered,
        );
      })
step-IsTracked {t = t} short (removes peer) small v = record {
  same_ip_port = v.same_ip_port;
  registered = removed-All t.server peer t.live v.registered;
}

steps-IsTracked :
    {ip_port : Bytes} {t u : Tracked}
    → length ip_port ≤ 51
    → Reaches t u
    → u.server.next_conn_id ≤ max_int
    → IsTracked ip_port t
    → IsTracked ip_port u
steps-IsTracked short here small v = v
steps-IsTracked short (then_step r step) small v =
    let grows = next_conn_id_grows step in
    step-IsTracked short step small (steps-IsTracked short r (omega arith) v)

All-found :
    (s : Server) (cs : List Peer)
    → All (IsRegistered s) cs
    → All (λ (c : Peer). lookup c.name s.connections ≡ some c) cs
All-found s [] v = tt
All-found s (c ∷ cs) (v, vs) = (v.1, All-found s cs vs)

-- As long as the numbers of the connections stay in an `int`, and the server's address prints to 51
-- characters at most: whatever connections are accepted and removed, each that was accepted and not
-- removed since is the entry of the map under its name.
pub connections_stay :
    (s : Server) (t : Tracked)
    → length s.ip_port ≤ 51
    → Reaches (record { server = s; live = [] }) t
    → t.server.next_conn_id ≤ max_int
    → All (λ (c : Peer). lookup c.name t.server.connections ≡ some c) t.live
connections_stay s t short r small =
    All-found t.server t.live
      (steps-IsTracked short r small (record { same_ip_port = refl; registered = tt })).registered
