-- ===== src/World/Keeps.antt =====
-- Invariants of handlers: one rule for each way to build an action.
use high_performance_chatser.Prelude.{
  Map, ℤ, Bool, true, false, Bytes, [], ◌∷◌, ◌++◌, Option, none, some, Result, ok, stop, Stop,
  if◌then◌else◌,
}
use high_performance_chatser.Platform.{Platform}
use high_performance_chatser.World.{
  World, ConnId, get_users, put_users, ◌>>◌, Effect, statement, Exec, pure, fail, resume, ◌>>=◌,
  lift, or_throw, emit, get_connection, update, query, insert_id,
}

-- `m` keeps `Q`, however it ends.
pub record Keeps {P : Platform} {A : Type 0} (Q : World P → Type 0) (m : Exec P A) : Type 0 where
  pub at : (w : World P) → Q w → Q (m w).1

-- `Q` does not depend on the database, and survives the calls that `Allowed` describes.
pub record Stable {P : Platform} (Allowed : Effect → Type 0) (Q : World P → Type 0) : Type 0 where
  pub db_change : (w : World P) (d : P.Db) → Q w → Q (record w { db = d })
  pub call :
      (w : World P) (e : Effect) → Allowed e → Q w → Q (record w { trace = w.trace ++ e ∷ [] })

module _ {P : Platform} {A : Type 0} {Q : World P → Type 0} where
  pub Keeps-pure : (a : A) → Keeps Q (pure {P = P} a)
  Keeps-pure a = record { at = λ w h. h }

  pub Keeps-fail : (e : Stop) → Keeps Q (fail {P = P} {A = A} e)
  Keeps-fail e = record { at = λ w h. h }

  pub Keeps-lift : (r : Result A) → Keeps Q (lift {P = P} r)
  Keeps-lift r = record { at = λ w h. h }

  pub Keeps-or_throw : (o : Option A) → Keeps Q (or_throw {P = P} o)
  Keeps-or_throw none = record { at = λ w h. h }
  Keeps-or_throw (some a) = record { at = λ w h. h }

  pub Keeps-if : (b : Bool) (m n : Exec P A) → Keeps Q m → Keeps Q n → Keeps Q (if b then m else n)
  Keeps-if true m n km kn = km
  Keeps-if false m n km kn = kn

module _ {P : Platform} {B : Type 0} {Q : World P → Type 0} where
  pub Keeps-get_users :
      (f : Map ℤ ConnId → Exec P B)
      → ((m : Map ℤ ConnId) → Keeps Q (f m))
      → Keeps Q (get_users >>= f)
  unfolding ◌>>=◌
  Keeps-get_users f kf = record { at = λ w h. (kf w.users).at w h }

  -- A change of the map, as a function of what was read from it.
  pub Keeps-change_users :
      (f : Map ℤ ConnId → Map ℤ ConnId) (m : Map ℤ ConnId → Exec P B)
      → ((w : World P) → Q w → Q (record w { users = f w.users }))
      → ((users : Map ℤ ConnId) → Keeps Q (m users))
      → Keeps Q (get_users >>= λ users. put_users (f users) >> m users)
  unfolding ◌>>=◌
  Keeps-change_users f m keep km = record {
    at = λ w h. (km w.users).at (record w { users = f w.users }) (keep w h);
  }

module _ {P : Platform} {A B : Type 0} {Q : World P → Type 0} where
  keeps_resume :
      (r : Result A) (w : World P) (f : A → Exec P B)
      → Q w
      → ((a : A) → Keeps Q (f a))
      → Q (resume (r, w) f).1
  keeps_resume (ok a) w f h kf = (kf a).at w h
  keeps_resume (stop e) w f h kf = h

  pub Keeps-bind :
      (m : Exec P A) (f : A → Exec P B) → Keeps Q m → ((a : A) → Keeps Q (f a)) → Keeps Q (m >>= f)
  unfolding ◌>>=◌
  Keeps-bind m f km kf = record {
    at = λ w h. let (r, w') = m w in keeps_resume r w' f (km.at w h) kf;
  }

module _ {P : Platform} {Allowed : Effect → Type 0} {Q : World P → Type 0}
    (s : Stable Allowed Q) where
  pub Keeps-emit : (e : Effect) → Allowed e → Keeps Q (emit e)
  unfolding emit
  Keeps-emit e a = record { at = λ w h. s.call w e a h }

  pub Keeps-get_connection : Keeps Q (get_connection {P = P})
  unfolding get_connection
  Keeps-get_connection = record { at = λ w h. s.db_change w _ h }

  pub Keeps-update : (sql : Bytes) → Allowed (statement sql) → Keeps Q (update {P = P} sql)
  unfolding update
  Keeps-update sql a = record {
    at = λ w h. s.call (record w { db = _ }) (statement sql) a (s.db_change w _ h);
  }

  pub Keeps-query : (sql : Bytes) → Keeps Q (query {P = P} sql)
  unfolding query
  Keeps-query sql = record { at = λ w h. s.db_change w _ h }

  pub Keeps-insert_id : Keeps Q (insert_id {P = P})
  unfolding insert_id
  Keeps-insert_id = record { at = λ w h. h }

pub ruleset keeps_rules =
    (Keeps-pure, Keeps-fail, Keeps-lift, Keeps-or_throw, Keeps-if, Keeps-get_users, Keeps-bind)
