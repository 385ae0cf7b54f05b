-- ===== src/Model/OfflineMsgModel.antt =====
-- model/OfflineMessageModel.cpp.
use high_performance_chatser.Prelude.{Stop, ℤ, Bytes, List, map}
use high_performance_chatser.Platform.{Platform}
use high_performance_chatser.World.{Exec, fail, pure, ◌>>=◌, ◌>>◌, lift}
use high_performance_chatser.Model.Statements.{sprintf, delete_offline_sql, select_offline_sql}
use high_performance_chatser.Model.Rows.{run_update, run_query}

module _ {P : Platform} where
  -- `sprintf` gets the string object itself for `%s`, which is undefined.
  unfoldable pub insert : ℤ → Bytes → Exec P (Unit {0})
  insert userid msg = fail Stop.undefined_call

  unfoldable pub remove : ℤ → Exec P (Unit {0})
  unfolding sprintf run_update
  remove userid = do sql ← lift (sprintf (delete_offline_sql userid)); run_update sql; pure tt

  unfoldable pub query : ℤ → Exec P (List Bytes)
  unfolding sprintf run_query
  query userid = do
    sql ← lift (sprintf (select_offline_sql userid))
    rows ← run_query sql
    pure (map (λ row. row 0) rows)
