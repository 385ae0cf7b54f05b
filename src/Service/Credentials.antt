-- ===== src/Service/Credentials.antt =====
-- `login`: who gets an entry in the map.
use high_performance_chatser.Prelude.{
  ℤ, negsuc, ◌≡◌, ◌≢◌, ◌∙◌, refl, ap, ◌⊎◌, inl, inr, Bytes, [], some, codes, arith, Bool-cases,
  Option-cases, Map, insert, int_eq, bytes_eq, ◌==◌, int_beq_iff, bytes_beq_iff, Result, ok, stop,
  bytes_beq,
}
use high_performance_chatser.Prelude.Decimal.{fmt_int}
use high_performance_chatser.Platform.{Platform}
use high_performance_chatser.World.{World, ConnId, ◌>>=◌, resume}
use high_performance_chatser.Model.Types.{User, default_user, online}
use high_performance_chatser.Model.Statements.{select_user_sql, update_state_sql}
use high_performance_chatser.Model.Rows.{rows_of, first_user}
use high_performance_chatser.Model.Runs.{Granted, query_lem}
use high_performance_chatser.Model.UserModel
use high_performance_chatser.Model.Keeps.{user_query-Keeps}
use high_performance_chatser.Service.Sessions.{login, login_checked, login_accept}
use high_performance_chatser.Service.Keeps.{users_stable, login_greet-Keeps}

-- The user row that the request names and whose password it gives, of a user who is not online.
abbrev pub Authentic : ℤ → Bytes → User → Type 0
Authentic id pwd user = (user.id ≡ id) × (user.password ≡ pwd) × (user.state ≢ online)

module _ {P : Platform} where
  pub users_of_accept :
      (conn : ConnId) (id : ℤ) (user : User) (w : World P)
      → (login_accept conn id user w).1.users ≡ insert id conn w.users
  unfolding login_accept ◌>>=◌
  users_of_accept conn id user w =
      (login_greet-Keeps {P = P} (users_stable (λ m. m ≡ insert id conn w.users)) conn id user).at
        (record w { users = insert id conn w.users }) refl

  users_of_checked :
      (conn : ConnId) (id : ℤ) (pwd : Bytes) (user : User) (w : World P)
      → ((login_checked conn id pwd user w).1.users ≡ w.users)
        ⊎ (Authentic id pwd user
            × ((login_checked conn id pwd user w).1.users ≡ insert id conn w.users))
  unfolding login_checked ◌>>=◌
  users_of_checked conn id pwd user w = elim (Bool-cases (user.id == id)) [
    | inl same ↦ elim (Bool-cases (user.password == pwd)) [
      | inl right ↦ elim (Bool-cases (user.state == online)) [
        | inl already ↦ inl (rw (same, right, already))
        | inr fresh ↦ inr (
          (
            (int_beq_iff user.id id).0 same,
            (bytes_beq_iff user.password pwd).0 right,
            λ e. cc ((bytes_beq_iff user.state online).1 e),
          ),
          rw (same, right, fresh) (users_of_accept conn id user w),
        )
      ]
      | inr wrong ↦ inl (rw (same, wrong))
    ]
    | inr other ↦ inl (rw other)
  ]

  -- What the map shows of a login that changed it.
  abbrev pub EntersMap : ConnId → P.Json → World P → Type 0
  EntersMap conn js w =
      (id : ℤ) × (pwd : Bytes) × (user : User) × (P.get_int js (codes "id") ≡ some id)
      × (P.get_string js (codes "password") ≡ some pwd)
      × ((UserModel.query id w).0 ≡ ok user)
      × Authentic id pwd user
      × ((login conn js w).1.users ≡ insert id conn w.users)

  after_query :
      (conn : ConnId) (id : ℤ) (pwd : Bytes) (r : Result User) (w' : World P) (m : Map ℤ ConnId)
      → w'.users ≡ m
      → (resume (r, w') (login_checked conn id pwd)).1.users ≢ m
      → (user : User) × (r ≡ ok user)
        × Authentic id pwd user
        × ((resume (r, w') (login_checked conn id pwd)).1.users ≡ insert id conn m)
  after_query conn id pwd (stop e) w' m same changed = absurd (changed same)
  after_query conn id pwd (ok user) w' m same changed =
      elim (users_of_checked conn id pwd user w') [
        | inl kept ↦ absurd (changed (kept ∙ same))
        | inr (auth, enters) ↦ (user, refl, auth, enters ∙ ap (insert id conn) same)
      ]

  -- A login that changes the map has given the password of the user row that its id names, the user
  -- was not marked online, and the change is the entry of that id for the connection.
  login_needs_password :
      (conn : ConnId) (js : P.Json) (w : World P)
      → (login conn js w).1.users ≢ w.users
      → EntersMap conn js w
  unfolding login ◌>>=◌
  login_needs_password conn js w changed = elim (Option-cases (P.get_int js (codes "id"))) [
    | inl e ↦ absurd (changed (rw e))
    | inr (id, e) ↦ elim (Option-cases (P.get_string js (codes "password"))) [
      | inl e' ↦ absurd (changed (rw (e, e')))
      | inr (pwd, e') ↦
          let (r, w') = UserModel.query {P = P} id w in
          let same : w'.users ≡ w.users =
            (user_query-Keeps {P = P} (users_stable (λ m. m ≡ w.users)) id).at w refl in
          let c : (resume (r, w') (login_checked conn id pwd)).1.users ≢ w.users =
            rw (e, e') at changed in
          let (user, found, auth, enters) = after_query conn id pwd r w' w.users same c in
          (id, pwd, user, e, e', found, auth, rw (e, e') enters)
    ]
  ]

  -- Without a row for the id -1, `query` returns `User()`, whose id is -1 and whose password is
  -- empty: a login with just these enters the map under -1, with no account behind it.
  pub login_without_account :
      (conn : ConnId) (js : P.Json) (w : World P)
      → Granted P
      → ((d : P.Db) → rows_of (P.select (select_user_sql (negsuc 0)) d).0 ≡ [])
      → P.get_int js (codes "id") ≡ some (negsuc 0)
      → P.get_string js (codes "password") ≡ some []
      → (login conn js w).1.users ≡ insert (negsuc 0) conn w.users
  unfolding login ◌>>=◌ fmt_int bytes_beq update_state_sql
  login_without_account conn js w granted no_row id pwd =
      let (d, found) = query_lem granted (negsuc 0) w (omega arith) in
      let empty = ap first_user (no_row (P.grant w.db).1) in
      rw (id, pwd)
        (rw found (rw empty (users_of_accept conn (negsuc 0) default_user (record w { db = d }))))
