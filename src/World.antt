-- ===== src/World.antt =====
-- What a handler of the chat service works on, and how it runs: the shared map of `ChatService`,
-- the database, and the calls that leave the process, in order. A handler that an exception or
-- undefined behaviour ends has done what it did before.
pub mod Keeps
pub mod Framed
use high_performance_chatser.Prelude.{
  ℕ, ℤ, Bool, Bytes, List, [], ◌∷◌, ◌++◌, Option, none, some, Map, Result, Stop, ok, stop,
}
use high_performance_chatser.Platform.{Platform, Row}

-- A `TcpConnectionPtr`.
abbrev pub ConnId : Type 0
ConnId = ℕ

-- A call that leaves the process: `conn->send`, the commands of `Redis`, and each statement that
-- went to the database to change it.
pub data Effect : Type 0 where
  sent : ConnId → Bytes → Effect
  published : ℤ → Bytes → Effect
  subscribed : ℤ → Effect
  unsubscribed : ℤ → Effect
  statement : Bytes → Effect

pub record World (P : Platform) : Type 0 where
  pub users : Map ℤ ConnId  -- `UserConnMap`
  pub db : P.Db
  pub trace : List Effect

module _ (P : Platform) where
  abbrev pub Exec : Type 0 → Type 0
  Exec A = World P → Result A × World P

module _ {P : Platform} where
  abbrev pub pure : {A : Type 0} → A → Exec P A
  pure a w = (ok a, w)

  abbrev pub fail : {A : Type 0} → Stop → Exec P A
  fail e w = (stop e, w)

  -- The rest of a handler, after a part of it has ended.
  abbrev pub resume : {A B : Type 0} → Result A × World P → (A → Exec P B) → Result B × World P
  resume (ok a, w) f = f a w
  resume (stop e, w) f = (stop e, w)

  abbrev pub lift : {A : Type 0} → Result A → Exec P A
  lift r w = (r, w)

  unfoldable pub get_users : Exec P (Map ℤ ConnId)
  get_users w = (ok w.users, w)

  -- `mysql_insert_id`
  unfoldable pub insert_id : Exec P ℤ
  insert_id w = (ok (P.insert_id w.db), w)

  -- A JSON access that may throw.
  abbrev pub or_throw : {A : Type 0} → Option A → Exec P A
  or_throw none = fail Stop.json_exception
  or_throw (some a) = pure a

  unfoldable pub emit : Effect → Exec P (Unit {0})
  emit e w = (ok tt, record w { trace = w.trace ++ e ∷ [] })

  unfoldable pub put_users : Map ℤ ConnId → Exec P (Unit {0})
  put_users m w = (ok tt, record w { users = m })

  -- `Connectionpool::getConnection`: whether the pointer is not null.
  unfoldable pub get_connection : Exec P Bool
  get_connection w = let (granted, d) = P.grant w.db in (ok granted, record w { db = d })

  -- `Connection::update`
  unfoldable pub update : Bytes → Exec P Bool
  update sql w =
      let (done, d) = P.execute sql w.db in
      (ok done, record w { db = d; trace = w.trace ++ statement sql ∷ [] })

  -- `Connection::query`, with the rows that `mysql_fetch_row` returns.
  unfoldable pub query : Bytes → Exec P (Option (List Row))
  query sql w = let (rows, d) = P.select sql w.db in (ok rows, record w { db = d })

  infixl 10 ◌>>=◌ ◌>>◌
  -- Opening this opens the actions above too.
  unfoldable pub ◌>>=◌ : {A B : Type 0} → Exec P A → (A → Exec P B) → Exec P B
  unfolding emit get_users put_users get_connection update query insert_id
  ◌>>=◌ m f w = resume (m w) f

  abbrev pub ◌>>◌ : {A B : Type 0} → Exec P A → Exec P B → Exec P B
  m >> n = m >>= λ _. n
