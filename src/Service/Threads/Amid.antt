-- ===== src/Service/Threads/Amid.antt =====
-- A thread amid the others, which may change the world in any way between two of its calls.
use high_performance_chatser.Prelude.{
  Stop, stop, Result, bytes_beq_iff, ◌≢◌, ap, ◌<◌, length, ◌⊎◌, ℤ, ◌≡◌, refl, sym, inl, inr,
  Bool-cases, Bytes, codes, List, [], ◌∷◌, ◌++◌, append-nil, Option, none, some, ok, lookup, int_eq,
  bytes_eq, ◌==◌, if◌then◌else◌,
}
use high_performance_chatser.Platform.{Platform}
use high_performance_chatser.World
use high_performance_chatser.World.{World, ConnId, Effect, sent, published, statement}
use high_performance_chatser.Model.Types.{User, online}
use high_performance_chatser.Model.UserModel
use high_performance_chatser.Model.OfflineMsgModel
use high_performance_chatser.Prelude.Decimal.{fmt_int}
use high_performance_chatser.Model.Statements.{select_user_sql}
use high_performance_chatser.Model.Rows.{rows_of, first_user}
use high_performance_chatser.Model.Runs.{Granted, query_lem}
use high_performance_chatser.Service.Threads.{
  Thread, over, lock, unlock, calls, pure, locked, ◌>>=◌,
}
use high_performance_chatser.Service.Threads.Handlers.{send_here, deliver_away, one_chat}

module _ {P : Platform} where
  -- If the thread makes each of its calls in a world of `worlds`, whatever this world is, it comes to
  -- an end, and this end and what its own calls have added to the trace are as said.
  abbrev pub Ends :
      (World P → Type 0) → (Result (Unit {0}) → List Effect → Type 0) → Thread P → Type 0
  Ends worlds said over = said (ok tt) []
  Ends worlds said (lock t) = Ends worlds said t
  Ends worlds said (unlock t) = Ends worlds said t
  Ends worlds said (calls {A} m k) =
      (w : World P)
      → worlds w
      → (w' : World P) × (es : List Effect) × (w'.trace ≡ w.trace ++ es)
        × (((a : A) × (m w ≡ (ok a, w')) × Ends worlds (λ r rest. said r (es ++ rest)) (k a))
            ⊎ ((e : Stop) × (m w ≡ (stop e, w')) × said (stop e) es))

  -- The one call that passes the text on, or the undefined statement, is right for the map in one of
  -- the worlds and the row that a query has found in one of them.
  abbrev pub IsDelivered : (World P → Type 0) → ℤ → Bytes → Result (Unit {0}) → List Effect → Type 0
  IsDelivered worlds id text end es =
      (w : World P) × worlds w
      × (((c : ConnId) × (lookup id w.users ≡ some c) × (end ≡ ok tt) × (es ≡ sent c text ∷ []))
          ⊎ ((lookup id w.users ≡ none)
              × ((user : User) × (v : World P) × worlds v
                  × ((UserModel.query id v).0 ≡ ok user)
                  × (((user.state ≡ online) × (end ≡ ok tt) × (es ≡ published id text ∷ []))
                      ⊎ ((user.state ≢ online) × (end ≡ stop Stop.undefined_call) × (es ≡ []))))))

module _ {P : Platform} (granted : Granted P) (worlds : World P → Type 0) (id : ℤ) (text : Bytes)
    (fits : length (fmt_int id) < 990) where
  away-Ends :
      (w : World P)
      → worlds w
      → lookup id w.users ≡ none
      → Ends worlds (IsDelivered worlds id text) (deliver_away {P = P} id text (λ _. over))
  unfolding deliver_away ◌>>=◌ World.emit OfflineMsgModel.insert
  away-Ends w seen miss = λ v seen2.
      let (d, found) = query_lem granted id v fits in
      let user = first_user (rows_of (P.select (select_user_sql id) (P.grant v.db).1).0) in
      let answer = ap (λ r. r.0) found in
      (
        record v { db = d },
        [],
        sym (append-nil v.trace),
        inl (
          user,
          found,
          elim (Bool-cases (user.state == online)) [
            | inl here ↦ rw here (λ w3 seen3. (
              record w3 { trace = w3.trace ++ published id text ∷ [] },
              published id text ∷ [],
              refl,
              inl (
                tt,
                refl,
                (
                  w,
                  seen,
                  inr (
                    miss,
                    (
                      user,
                      v,
                      seen2,
                      answer,
                      inl ((bytes_beq_iff user.state online).0 here, refl, refl),
                    ),
                  ),
                ),
              ),
            ))
            | inr away ↦ rw away (λ w3 seen3. (
              w3,
              [],
              sym (append-nil w3.trace),
              inr (
                Stop.undefined_call,
                refl,
                (
                  w,
                  seen,
                  inr (
                    miss,
                    (
                      user,
                      v,
                      seen2,
                      answer,
                      inr ((λ e. cc ((bytes_beq_iff user.state online).1 e)), refl, refl),
                    ),
                  ),
                ),
              ),
            ))
          ],
        ),
      )

  searched-Ends :
      (o : Option ConnId) (w : World P)
      → worlds w
      → lookup id w.users ≡ o
      → Ends worlds (IsDelivered worlds id text) (
          send_here {P = P} o text
            (λ done. unlock ((if done then pure tt else deliver_away id text) (λ _. over))))
  unfolding send_here ◌>>=◌ World.emit
  searched-Ends none w seen miss = away-Ends w seen miss
  searched-Ends (some c) w seen hit = λ w2 seen2. (
    record w2 { trace = w2.trace ++ sent c text ∷ [] },
    sent c text ∷ [],
    refl,
    inl (tt, refl, (w, seen, inl (c, hit, refl, refl))),
  )

-- If the pool grants connections, however other threads change the map and the database between the
-- calls of the handler of a chat message: the message leaves the server in exactly one call, to a
-- connection that the map had for the receiver in one of these worlds, or to Redis if the map had
-- none in one of them and the row that the query found in one of them says online; if that row does
-- not, the handler comes to the statement that is undefined, and has sent nothing.
pub one_chat_amid :
    {P : Platform} (worlds : World P → Type 0) (conn : ConnId) (js : P.Json) (toid : ℤ)
    → Granted P
    → P.get_int js (codes "toid") ≡ some toid
    → length (fmt_int toid) < 990
    → Ends worlds (IsDelivered worlds toid (P.dump js)) (one_chat conn js (λ _. over))
unfolding one_chat locked ◌>>=◌ World.get_users
one_chat_amid {P} worlds conn js toid granted target fits = λ w seen. (
  w,
  [],
  sym (append-nil w.trace),
  inl (
    toid,
    rw target refl,
    λ w1 seen1. (
      w1,
      [],
      sym (append-nil w1.trace),
      inl (
        w1.users,
        refl,
        searched-Ends granted worlds toid (P.dump js) fits (lookup toid w1.users) w1 seen1 refl,
      ),
    ),
  ),
)
