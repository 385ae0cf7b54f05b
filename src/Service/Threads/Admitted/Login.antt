-- ===== src/Service/Threads/Admitted/Login.antt =====
-- The handlers, and what they may insert into the map.
use high_performance_chatser.Prelude.{
  ◌&&◌, ℤ, ◌≡◌, ◌∙◌, inl, inr, refl, sym, subst, ap, Bool, true, false, Bool-cases, Bytes, codes,
  Option, none, some, Option-cases, lookup, lookup-insert, ok, if◌then◌else◌, ◌==◌, int_eq,
  bytes_eq, int_beq_iff, bytes_beq_iff, arith,
}
use high_performance_chatser.Platform.{Platform}
use high_performance_chatser.World
use high_performance_chatser.World.{World, ConnId, Exec, or_throw}
use high_performance_chatser.World.Framed.{Framed-emit, Framed-or_throw, Framed, users_of_Framed}
use high_performance_chatser.Model.Types.{User, online}
use high_performance_chatser.Model.Framed.{user_query-Framed}
use high_performance_chatser.Service.Messages.{Handler, login_h, get_handler}
use high_performance_chatser.Service.Credentials.{Authentic}
use high_performance_chatser.Service.Dispatch.{Event, received, closed, notified}
use high_performance_chatser.Service.Threads.{call, Part, over, change_users, ◌>>=◌, locked}
use high_performance_chatser.Service.Threads.Handlers.{
  login, check, accept, greet, run_handler, on_message, handle, thread_of,
}
use high_performance_chatser.Service.Threads.Guarded.{Guards}
use high_performance_chatser.Service.Threads.Guarded.Handling.{
  handler_cases, greet-Guards, close-Guards, notified-Guards,
}
use high_performance_chatser.Service.Threads.Admitted.{
  Also, Enters, Enters-grow, IsAdmitted, IsGuarded-IsAdmitted,
}

-- The part of a handler that nothing follows.
record Admits {P : Platform} (event : Event) (worlds : World P → Type 0) (p : Part P (Unit {0}))
    : Type 1 where
  admits : IsAdmitted event worlds (p (λ _. over))

module _ {P : Platform} {event : Event} {worlds : World P → Type 0} where
  Admits-guarded : (p : Part P (Unit {0})) → Guards false false p → Admits event worlds p
  Admits-guarded p g = record {
    admits =
        IsGuarded-IsAdmitted event worlds false (p (λ _. over)) (g.guards (λ _. over) (λ _. refl));
  }

  Admits-call : (m : Exec P (Unit {0})) → Framed m → Admits event worlds (call m)
  Admits-call m framed = record {
    admits =
        λ w. (λ id conn e. inl (ap (lookup id) (sym (users_of_Framed m framed w)) ∙ e), λ a e. tt);
  }

  -- A call that has nothing to do with the map, and what follows when it has returned.
  Admits-bind :
      {A : Type 0} (m : Exec P A) (f : A → Part P (Unit {0}))
      → Framed m
      → ((w : World P) (a : A) → (m w).0 ≡ ok a → Admits event (Also worlds w) (f a))
      → Admits event worlds (call m >>= f)
  unfolding ◌>>=◌
  Admits-bind m f framed rest = record {
    admits = λ w. (
      λ id conn e. inl (ap (lookup id) (sym (users_of_Framed m framed w)) ∙ e),
      λ a e. (rest w a e).admits,
    );
  }

  Admits-if :
      (b : Bool) (p q : Part P (Unit {0}))
      → (b ≡ true → Admits event worlds p)
      → (b ≡ false → Admits event worlds q)
      → Admits event worlds (if b then p else q)
  Admits-if true p q hp hq = hp refl
  Admits-if false p q hp hq = hq refl

checked :
    (id : ℤ) (pwd : Bytes) (user : User)
    → (user.id == id && user.password == pwd) ≡ true
    → (user.state == online) ≡ false
    → Authentic id pwd user
checked id pwd user right fresh = ground (
  arith,
  int_beq_iff user.id id,
  bytes_beq_iff user.password pwd,
  bytes_beq_iff user.state online,
)

module _ {P : Platform} where
  thrown :
      {A : Type 0} (o : Option A) (a : A) (w : World P)
      → (or_throw {P = P} o w).0 ≡ ok a
      → o ≡ some a
  thrown none a w e = absurd (cc)
  thrown (some b) a w e = cc

  accept-Admits :
      {event : Event} {F : World P → Type 0} (conn : ConnId) (id : ℤ) (user : User)
      → Enters F event id conn
      → Admits event F (accept {P = P} conn id user)
  unfolding accept locked ◌>>=◌ change_users World.◌>>=◌
  accept-Admits {event} {F} conn id user enters = record {
    admits = λ w. (
      λ j c e. elim (Bool-cases (int_eq.beq id j)) [
        | inl same ↦ elim (Option-cases (lookup id w.users)) [
          | inl fresh ↦
              let found = lookup-insert id j conn w.users in
              let is_conn : c ≡ conn = ground (arith, found) in
              let is_id : j ≡ id = sym ((int_beq_iff id j).0 same) in
              inr (
                subst (λ (p : ℤ × ConnId). Enters (Also F w) event p.0 p.1)
                  (sym (ap (λ j. (j, c)) is_id ∙ ap (λ c. (id, c)) is_conn))
                  (Enters-grow event id conn (λ v f. inl f) enters))
          | inr (old, there) ↦
              let found = lookup-insert id j conn w.users in
              inl (ground (arith, found, int_beq_iff id j))
        ]
        | inr other ↦ let found = lookup-insert id j conn w.users in inl (ground (arith, found))
      ],
      λ a e. (Admits-guarded (greet {P = P} conn id user) (greet-Guards conn id user)).admits,
    );
  }

  check-Admits :
      {event : Event} {F : World P → Type 0} (conn : ConnId) (id : ℤ) (pwd : Bytes) (user : User)
      → (Authentic id pwd user → Enters F event id conn)
      → Admits event F (check {P = P} conn id pwd user)
  unfolding check
  check-Admits conn id pwd user enters =
      Admits-if _ _ _
        (λ right.
          Admits-if _ _ _ (λ already. Admits-call _ (Framed-emit _))
            (λ fresh. accept-Admits conn id user (enters (checked id pwd user right fresh))))
        (λ wrong. Admits-call _ (Framed-emit _))

  login-Admits :
      {F : World P → Type 0} (conn : ConnId) (text : Bytes) (js : P.Json) (msgid : ℤ)
      → P.parse text ≡ some js
      → P.get_int js (codes "msgid") ≡ some msgid
      → get_handler msgid ≡ some login_h
      → Admits (received conn text) F (login {P = P} conn js)
  unfolding login
  login-Admits conn text js msgid parsed is_msgid is_login =
      Admits-bind _ _ (Framed-or_throw _) λ w1 id e1.
        Admits-bind _ _ (Framed-or_throw _) λ w2 pwd e2.
          Admits-bind _ _ (user_query-Framed id) λ w user found.
            check-Admits conn id pwd user λ authentic. (
              text,
              refl,
              (
                js,
                msgid,
                pwd,
                user,
                w,
                parsed,
                is_msgid,
                is_login,
                thrown _ id w1 e1,
                thrown _ pwd w2 e2,
                inr refl,
                found,
                authentic,
              ),
            )

  handler-Admits :
      {F : World P → Type 0} (h : Option Handler) (conn : ConnId) (text : Bytes) (js : P.Json)
      (msgid : ℤ)
      → P.parse text ≡ some js
      → P.get_int js (codes "msgid") ≡ some msgid
      → get_handler msgid ≡ h
      → Admits (received conn text) F (run_handler {P = P} h conn js)
  unfolding run_handler
  handler-Admits h conn text js msgid parsed is_msgid is_h = elim (handler_cases h conn js) [
    | inl is_login ↦ rw is_login (login-Admits conn text js msgid parsed is_msgid (is_h ∙ is_login))
    | inr others ↦ Admits-guarded _ (others false)
  ]

  handle-Admits : {F : World P → Type 0} (event : Event) → Admits event F (handle {P = P} event)
  unfolding handle on_message
  handle-Admits (received conn text) = Admits-bind _ _ (Framed-or_throw _) λ w1 js e1.
      Admits-bind _ _ (Framed-or_throw _) λ w2 msgid e2.
        handler-Admits (get_handler msgid) conn text js msgid (thrown _ js w1 e1)
          (thrown _ msgid w2 e2) refl
  handle-Admits (closed conn) = Admits-guarded _ (close-Guards conn)
  handle-Admits (notified userid text) = Admits-guarded _ (notified-Guards userid text)

  pub thread_of-IsAdmitted :
      (F : World P → Type 0) (event : Event) → IsAdmitted event F (thread_of {P = P} event)
  thread_of-IsAdmitted F event = (handle-Admits event).admits
