-- ===== src/EndToEnd/TwoServers.antt =====
-- A chat message between users of two servers, by way of Redis.
use high_performance_chatser.Prelude.{
  Bytes, ℤ, ◌≡◌, refl, true, codes, [], ◌∷◌, ◌++◌, none, some, ok, lookup, int_eq, bytes_eq, ◌==◌,
}
use high_performance_chatser.Prelude.Decimal.{fmt_int}
use high_performance_chatser.Platform.{Platform}
use high_performance_chatser.Platform.Json.{JsonLaws}
use high_performance_chatser.World.{World, ConnId, sent, published, ◌>>=◌}
use high_performance_chatser.Model.Types.{User, online}
use high_performance_chatser.Model.UserModel
use high_performance_chatser.Service.Chats.{
  one_chat, deliver, deliver_away, deliver_notified, handle_redis_subscribe_message,
}
use high_performance_chatser.Service.Dispatch.{handle, notified}
use high_performance_chatser.Redis.{Hiredis, Redis, publish, publish_on, observe}
use high_performance_chatser.Redis.Observer.{message, elements, observe-messages}
use high_performance_chatser.EndToEnd.Texts.{c_str-dump}

module _ {P : Platform} (laws : JsonLaws P) where
  -- If the message was parsed, the receiver has no connection at the first server, its row there says online, and the second
  -- server has a connection for it: the first server publishes the message on the receiver's
  -- channel, with the whole text as the argument of the Redis command; the observer of a server that
  -- gets the text on this channel hands just this pair to the handler; and the handler of the second
  -- server sends the text unchanged, once, to the receiver's connection.
  pub chat_crosses_servers :
      {H : Hiredis} (conn friend_conn : ConnId) (text : Bytes) (js : P.Json) (friend : ℤ)
      (w w' : World P) (user : User) (d : P.Db) (c : H.Context) (redis : Redis H)
      → P.parse text ≡ some js
      → P.get_int js (codes "toid") ≡ some friend
      → lookup friend w.users ≡ none
      → UserModel.query friend w ≡ (ok user, record w { db = d })
      → (user.state == online) ≡ true
      → redis.publish_context ≡ some c
      → lookup friend w'.users ≡ some friend_conn
      → (one_chat conn js w
          ≡ (ok tt, record w { db = d; trace = w.trace ++ published friend (P.dump js) ∷ [] }))
        × ((publish friend (P.dump js) redis).1 ≡ record redis {
          publish_context =
              some (H.command (codes "PUBLISH" ∷ fmt_int friend ∷ P.dump js ∷ []) c).1;
        })
        × (observe (elements (message friend (P.dump js)) ∷ []) ≡ ((friend, P.dump js) ∷ [], ok tt))
        × (handle (notified friend (P.dump js)) w'
            ≡ (ok tt, record w' { trace = w'.trace ++ sent friend_conn (P.dump js) ∷ [] }))
  unfolding one_chat ◌>>=◌ deliver deliver_away handle handle_redis_subscribe_message
      deliver_notified publish publish_on
  chat_crosses_servers conn friend_conn text js friend w w' user d c redis parsed target miss found
        here open_context hit =
      (
        rw (target, miss, deliver) (rw found (rw here refl)),
        rw (open_context, publish_on)
            (rw (c_str-dump laws js (laws.parse-is_printable text js parsed)) refl),
        observe-messages (message friend (P.dump js) ∷ []),
        rw (laws.parse-dump_parsed text js parsed) (rw hit refl),
      )
