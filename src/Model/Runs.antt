-- ===== src/Model/Runs.antt =====
-- How the model classes run when the pool grants connections and the SQL text fits its array.
use high_performance_chatser.Prelude.{
  ℤ, ◌+◌, ◌<◌, ◌≡◌, Bool, true, Bytes, [], ◌∷◌, ◌++◌, ok, length, arith,
}
use high_performance_chatser.Prelude.Decimal.{fmt_int}
use high_performance_chatser.Platform.{Platform}
use high_performance_chatser.World.{World, statement, ◌>>=◌}
use high_performance_chatser.Model.Statements.{sql_size, sprintf, select_user_sql}
use high_performance_chatser.Model.Rows.{run_update, rows_of, first_user}
use high_performance_chatser.Model.UserModel

-- The pool has a connection for every call.
abbrev pub Granted : Platform → Type 0
Granted P = (d : P.Db) → (P.grant d).0 ≡ true

pub sprintf_fits : (sql : Bytes) → length sql < sql_size → sprintf sql ≡ ok sql
unfolding sprintf
sprintf_fits sql h = ground arith

length-select_user : (id : ℤ) → length (select_user_sql id) ≡ 30 + length (fmt_int id)
unfolding select_user_sql
length-select_user id = omega arith

module _ {P : Platform} (granted : Granted P) where
  pub run_update_lem :
      (sql : Bytes) (w : World P)
      → (r : Bool) × (d : P.Db) × (run_update sql w
          ≡ (ok r, record w { db = d; trace = w.trace ++ statement sql ∷ [] }))
  unfolding run_update ◌>>=◌
  run_update_lem sql w =
      let d = (P.grant w.db).1 in ((P.execute sql d).0, (P.execute sql d).1, rw (granted w.db))

  -- `UserModel::query` of a number whose statement fits.
  pub query_lem :
      (id : ℤ) (w : World P)
      → length (fmt_int id) < 990
      → (d : P.Db) × (UserModel.query id w ≡ (
        ok (first_user (rows_of (P.select (select_user_sql id) (P.grant w.db).1).0)),
        record w { db = d },
      ))
  unfolding UserModel.query ◌>>=◌
  query_lem id w h =
      let fits = sprintf_fits (select_user_sql id) (omega (arith, length-select_user id)) in
      ((P.select (select_user_sql id) (P.grant w.db).1).1, rw fits (rw (granted w.db)))
