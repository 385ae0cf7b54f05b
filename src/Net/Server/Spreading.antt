-- ===== src/Net/Server/Spreading.antt =====
-- Which loop serves which connection.
use high_performance_chatser.Prelude.{
  ℕ, pos, codes, eqb, false, suc, ◌+◌, ◌≤◌, ◌<◌, ◌≡◌, ◌∙◌, refl, sym, ap, Bytes, List, [], ◌∷◌,
  ◌++◌, some, none, if◌then◌else◌, arith, length, get_elem?, append-nil, append_assoc,
}
use high_performance_chatser.Prelude.Decimal.{fmt_int}
use high_performance_chatser.Net.Server.Names.{conn_suffix_whole}
use high_performance_chatser.Net.LoopPool.{get_next_loop, assign_loops}
use high_performance_chatser.Net.Server.{
  Task, connect_established, Server, conn_suffix, new_peer, add_connection, new_connection,
  handle_read, accept_all,
}

-- The name of connection `id`, written out.
abbrev pub whole_name : (name ip_port : Bytes) → ℕ → Bytes
whole_name name ip_port id = name ++ (codes "-" ++ (ip_port ++ (codes "#" ++ fmt_int (pos id))))

-- The loop and the task of each accepted descriptor, if connection `i` is served by loop `f i`.
abbrev pub established : (ℕ → ℕ) → (name ip_port : Bytes) → ℕ → List ℕ → List (ℕ × Task)
established f name ip_port id [] = []
established f name ip_port id (fd ∷ fds) =
    (
      f 0,
      connect_established (record { name = whole_name name ip_port id; loop = f 0; sockfd = fd }),
    )
    ∷ established (λ i. f (suc i)) name ip_port (id + 1) fds

-- If the pool will choose the loops `f i`, the numbers stay in an `int`, and the address prints to 51
-- characters at most, the accepted connections are established there.
pub accept_all_lem :
    (fds : List ℕ) (f : ℕ → ℕ) (s : Server)
    → length s.ip_port ≤ 51
    → s.next_conn_id + length fds < 2147483648
    → ((i : ℕ)
        → i < length fds
        → get_elem? (assign_loops (length fds) s.threadpool) i ≡ some (some (f i)))
    → (t : Server) × (accept_all fds s ≡ some t)
      × (t.tasks ≡ s.tasks ++ established f s.name s.ip_port s.next_conn_id fds)
unfolding accept_all assign_loops handle_read new_connection add_connection new_peer
accept_all_lem [] f s short small h = (s, refl, sym (append-nil s.tasks))
accept_all_lem (fd ∷ fds) f s short small h =
    let first : (get_next_loop s.threadpool).0 ≡ some (f 0) =
      ap (λ o. elim o [ none ↦ none | some x ↦ x ]) (h 0 (omega arith)) in
    let in_range : eqb s.next_conn_id 2147483647 ≡ false = ground arith in
    let pooled : Server = record s { threadpool = (get_next_loop s.threadpool).1 } in
    let s1 : Server = add_connection (f 0) fd pooled in
    let done : handle_read (some fd) s ≡ some s1 =
      ap
        (λ o. elim o [
          | none ↦ none
          | some l ↦
              if eqb s.next_conn_id 2147483647 then none else some (add_connection l fd pooled)
        ])
        first
      ∙ rw in_range refl in
    let (t, rest, tasks) =
      accept_all_lem fds (λ i. f (suc i)) s1 short (omega arith)
        (λ i lt. h (suc i) (omega arith)) in
    let name : s.name ++ conn_suffix s.ip_port s.next_conn_id
        ≡ whole_name s.name s.ip_port s.next_conn_id =
      ap (λ x. s.name ++ x) (conn_suffix_whole s.ip_port s.next_conn_id short (omega arith)) in
    (
      t,
      ap (λ o. elim o [ none ↦ none | some s' ↦ accept_all fds s' ]) done ∙ rest,
      tasks
          ∙ append_assoc s.tasks _ _
          ∙ ap
              (λ n.
                s.tasks
                ++ (f 0, connect_established (record { name = n; loop = f 0; sockfd = fd }))
                  ∷ established (λ i. f (suc i)) s.name s.ip_port (s.next_conn_id + 1) fds)
              name,
    )
