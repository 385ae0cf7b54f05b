-- ===== src/World/Framed.antt =====
-- Actions that have nothing to do with `UserConnMap`: one rule for each way to build one.
use high_performance_chatser.Prelude.{
  ℤ, Bool, true, false, ◌≡◌, ◌∙◌, refl, ap, Bytes, Option, none, some, Map, Result, ok, stop, Stop,
  if◌then◌else◌,
}
use high_performance_chatser.Platform.{Platform}
use high_performance_chatser.World.{
  World, ConnId, Effect, Exec, pure, fail, resume, ◌>>=◌, lift, or_throw, emit, get_connection,
  update, query, insert_id,
}

module _ {P : Platform} where
  abbrev pub with_users : {A : Type 0} → Map ℤ ConnId → Result A × World P → Result A × World P
  with_users m (r, w) = (r, record w { users = m })

-- `m` does the same whatever the map is, and leaves it alone.
pub record Framed {P : Platform} {A : Type 0} (m : Exec P A) : Type 0 where
  pub frame :
      (w : World P) (users : Map ℤ ConnId) → m (record w { users = users }) ≡ with_users users (m w)

module _ {P : Platform} {A : Type 0} where
  pub Framed-pure : (a : A) → Framed (pure {P = P} a)
  Framed-pure a = record { frame = λ w users. refl }

  pub Framed-fail : (e : Stop) → Framed (fail {P = P} {A = A} e)
  Framed-fail e = record { frame = λ w users. refl }

  pub Framed-lift : (r : Result A) → Framed (lift {P = P} r)
  Framed-lift r = record { frame = λ w users. refl }

  pub Framed-or_throw : (o : Option A) → Framed (or_throw {P = P} o)
  Framed-or_throw none = record { frame = λ w users. refl }
  Framed-or_throw (some a) = record { frame = λ w users. refl }

  pub Framed-if : (b : Bool) (m n : Exec P A) → Framed m → Framed n → Framed (if b then m else n)
  Framed-if true m n fm fn = fm
  Framed-if false m n fm fn = fn

  -- The map after an action that has nothing to do with it.
  pub users_of_Framed : (m : Exec P A) → Framed m → (w : World P) → (m w).1.users ≡ w.users
  users_of_Framed m f w = ap (λ r. r.1.users) (f.frame w w.users)

module _ {P : Platform} {A B : Type 0} where
  resume-with_users :
      (r : Result A) (w : World P) (f : A → Exec P B) (users : Map ℤ ConnId)
      → ((a : A) → Framed (f a))
      → resume (r, record w { users = users }) f ≡ with_users users (resume (r, w) f)
  resume-with_users (ok a) w f users ff = (ff a).frame w users
  resume-with_users (stop e) w f users ff = refl

  pub Framed-bind :
      (m : Exec P A) (f : A → Exec P B) → Framed m → ((a : A) → Framed (f a)) → Framed (m >>= f)
  unfolding ◌>>=◌
  Framed-bind m f fm ff = record {
    frame = λ w users.
        ap (λ r. resume r f) (fm.frame w users) ∙ resume-with_users (m w).0 (m w).1 f users ff;
  }

module _ {P : Platform} where
  pub Framed-emit : (e : Effect) → Framed (emit {P = P} e)
  unfolding emit
  Framed-emit e = record { frame = λ w users. refl }

  pub Framed-get_connection : Framed (get_connection {P = P})
  unfolding get_connection
  Framed-get_connection = record { frame = λ w users. refl }

  pub Framed-update : (sql : Bytes) → Framed (update {P = P} sql)
  unfolding update
  Framed-update sql = record { frame = λ w users. refl }

  pub Framed-query : (sql : Bytes) → Framed (query {P = P} sql)
  unfolding query
  Framed-query sql = record { frame = λ w users. refl }

  pub Framed-insert_id : Framed (insert_id {P = P})
  unfolding insert_id
  Framed-insert_id = record { frame = λ w users. refl }

pub ruleset framed_rules = (
  Framed-pure, Framed-fail, Framed-lift, Framed-or_throw, Framed-if, Framed-bind, Framed-emit,
  Framed-get_connection, Framed-update, Framed-query, Framed-insert_id,
)
