-- ===== src/Service/Delivery.antt =====
-- Where a chat message goes: `oneChat` and `groupChat`.
use high_performance_chatser.Prelude.{
  ℤ, ◌<◌, ◌≡◌, ◌≢◌, refl, sym, subst, ◌⊎◌, inl, inr, Bytes, List, [], ◌∷◌, ◌++◌, some, none, codes,
  ok, stop, Stop, Result, length, Bool-cases, Option-cases, lookup, int_eq, bytes_eq, ◌==◌,
  bytes_beq_iff, All,
}
use high_performance_chatser.Prelude.Decimal.{fmt_int}
use high_performance_chatser.Platform.{Platform}
use high_performance_chatser.World.{World, ConnId, sent, published, ◌>>=◌}
use high_performance_chatser.Model.Types.{User, online}
use high_performance_chatser.Model.Statements.{select_user_sql}
use high_performance_chatser.Model.Rows.{rows_of, first_user}
use high_performance_chatser.Model.Runs.{Granted, query_lem}
use high_performance_chatser.Model.UserModel
use high_performance_chatser.Model.GroupModel
use high_performance_chatser.Model.OfflineMsgModel
use high_performance_chatser.Service.Chats.{
  deliver, deliver_away, one_chat, deliver_all, group_chat,
}

-- How the text goes to user `id`: to the connection that the map has for the user; without one, to
-- Redis if the row that the query finds says online; and if not, the statement that is to store it
-- is undefined, after which nothing was sent.
abbrev pub Delivers : {P : Platform} → ℤ → Bytes → World P → Result (Unit {0}) × World P → Type 0
Delivers {P} id text w end =
    ((c : ConnId) × (lookup id w.users ≡ some c)
      × (end ≡ (ok tt, record w { trace = w.trace ++ sent c text ∷ [] })))
    ⊎ ((lookup id w.users ≡ none)
        × ((user : User) × (d : P.Db) × (UserModel.query id w ≡ (ok user, record w { db = d }))
            × (((user.state ≡ online)
                  × (end ≡ (ok tt, record w { db = d; trace = w.trace ++ published id text ∷ [] })))
                ⊎ ((user.state ≢ online)
                    × (end ≡ (stop Stop.undefined_call, record w { db = d }))))))

-- The text goes to one user after the other, until a statement is undefined.
abbrev pub DeliversAll :
    {P : Platform} → List ℤ → Bytes → World P → Result (Unit {0}) × World P → Type 0
DeliversAll [] text w end = end ≡ (ok tt, w)
DeliversAll {P} (id ∷ ids) text w end =
    (r : Result (Unit {0})) × (w' : World P) × Delivers id text w (r, w')
    × (((r ≡ ok tt) × DeliversAll ids text w' end) ⊎ ((r ≢ ok tt) × (end ≡ (r, w'))))

module _ {P : Platform} (granted : Granted P) where
  deliver_lem :
      (id : ℤ) (text : Bytes) (w : World P)
      → length (fmt_int id) < 990
      → Delivers id text w (deliver (lookup id w.users) id text w)
  unfolding deliver deliver_away ◌>>=◌ OfflineMsgModel.insert
  deliver_lem id text w h = elim (Option-cases (lookup id w.users)) [
    | inr (c, hit) ↦ inl (c, hit, rw hit refl)
    | inl miss ↦
        let (d, found) = query_lem granted id w h in
        let user = first_user (rows_of (P.select (select_user_sql id) (P.grant w.db).1).0) in
        inr (
          miss,
          (
            user,
            d,
            found,
            elim (Bool-cases (user.state == online)) [
              | inl here ↦
                  inl ((bytes_beq_iff user.state online).0 here, rw miss (rw found (rw here refl)))
              | inr away ↦ inr (
                λ e. cc ((bytes_beq_iff user.state online).1 e),
                rw miss (rw found (rw away refl)),
              )
            ],
          ),
        )
  ]

  joined_lem :
      (id : ℤ) (ids : List ℤ) (text : Bytes) (w : World P) (r : Result (Unit {0})) (w' : World P)
      → deliver (lookup id w.users) id text w ≡ (r, w')
      → Delivers id text w (r, w')
      → DeliversAll ids text w' (deliver_all ids text w')
      → DeliversAll (id ∷ ids) text w (deliver_all (id ∷ ids) text w)
  unfolding deliver_all ◌>>=◌
  joined_lem id ids text w (ok tt) w' e kind rest = (ok tt, w', kind, inl (refl, rw e rest))
  joined_lem id ids text w (stop x) w' e kind rest = (stop x, w', kind, inr (λ k. cc, rw e refl))

  deliver_all_lem :
      (ids : List ℤ) (text : Bytes) (w : World P)
      → All (λ id. length (fmt_int id) < 990) ids
      → DeliversAll ids text w (deliver_all ids text w)
  unfolding deliver_all
  deliver_all_lem [] text w h = refl
  deliver_all_lem (id ∷ ids) text w h =
      let (r, w') = deliver (lookup id w.users) id text w in
      joined_lem id ids text w r w' refl (deliver_lem id text w h.0)
        (deliver_all_lem ids text w' h.1)

  -- If the pool grants connections, a chat message to `toid` leaves the server in exactly one call if
  -- its receiver is connected, which goes to the connection that the map has, or if not, but the row
  -- in the table says online, which goes to Redis; otherwise the handler comes to the statement that
  -- is undefined, and has sent nothing. The map stays as it was.
  pub one_chat-Delivers :
      (conn : ConnId) (js : P.Json) (toid : ℤ) (w : World P)
      → P.get_int js (codes "toid") ≡ some toid
      → length (fmt_int toid) < 990
      → Delivers toid (P.dump js) w (one_chat conn js w)
  unfolding one_chat ◌>>=◌
  one_chat-Delivers conn js toid w target h =
      subst (Delivers toid (P.dump js) w) (rw target refl) (deliver_lem toid (P.dump js) w h)

  -- If the pool grants connections, a group message goes to the members that the query returned, in
  -- the query's order, in exactly one call each: to the member's connection if the map has one and
  -- to Redis if not and the row in the table says online. At the first member for whom neither holds
  -- the handler comes to the statement that is undefined. The map stays as it was.
  pub group_chat-DeliversAll :
      (conn : ConnId) (js : P.Json) (userid groupid : ℤ) (ids : List ℤ) (d : P.Db) (w : World P)
      → P.get_int js (codes "id") ≡ some userid
      → P.get_int js (codes "groupid") ≡ some groupid
      → GroupModel.query_group_users userid groupid w ≡ (ok ids, record w { db = d })
      → All (λ id. length (fmt_int id) < 990) ids
      → DeliversAll ids (P.dump js) (record w { db = d }) (group_chat conn js w)
  unfolding group_chat ◌>>=◌
  group_chat-DeliversAll conn js userid groupid ids d w sender group members h =
      subst (DeliversAll ids (P.dump js) (record w { db = d }))
        (sym (rw (sender, group, members) refl))
        (deliver_all_lem ids (P.dump js) (record w { db = d }) h)
