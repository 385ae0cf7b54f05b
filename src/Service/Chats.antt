-- ===== src/Service/Chats.antt =====
-- The handlers of chatservice.cpp that pass messages on: `oneChat`, `groupChat`,
-- `handleRedisSubscribeMessage`.
use high_performance_chatser.Prelude.{
  ℤ, Bytes, List, [], ◌∷◌, Option, none, some, codes, if◌then◌else◌, ◌==◌, int_eq, bytes_eq, nat_eq,
  lookup,
}
use high_performance_chatser.Platform.{Platform}
use high_performance_chatser.World.{
  ConnId, sent, published, Exec, pure, ◌>>=◌, ◌>>◌, or_throw, emit, get_users,
}
use high_performance_chatser.Model.Types.{online}
use high_performance_chatser.Model.UserModel
use high_performance_chatser.Model.GroupModel
use high_performance_chatser.Model.OfflineMsgModel
use high_performance_chatser.Service.Access.{get_int_at}

module _ {P : Platform} where
  open P use {Json, parse, dump, set_strings}

  -- Delivery to a user who is not connected here: another server, or the table.
  unfoldable pub deliver_away : ℤ → Bytes → Exec P (Unit {0})
  unfolding UserModel.query OfflineMsgModel.insert
  deliver_away id text = do
    user ← UserModel.query id
    if user.state == online then emit (published id text) else OfflineMsgModel.insert id text

  -- The body that `oneChat` and the loop of `groupChat` share.
  unfoldable pub deliver : Option ConnId → ℤ → Bytes → Exec P (Unit {0})
  unfolding deliver_away
  deliver (some c) id text = emit (sent c text)
  deliver none id text = deliver_away id text

  unfoldable pub one_chat : ConnId → Json → Exec P (Unit {0})
  unfolding lookup deliver
  one_chat conn js = do
    toid ← get_int_at js (codes "toid")
    users ← get_users
    deliver (lookup toid users) toid (dump js)

  -- The loop of `groupChat`, under one lock.
  unfoldable pub deliver_all : List ℤ → Bytes → Exec P (Unit {0})
  unfolding lookup deliver
  deliver_all [] text = pure tt
  deliver_all (id ∷ ids) text = do
    users ← get_users
    deliver (lookup id users) id text
    deliver_all ids text

  unfoldable pub group_chat : ConnId → Json → Exec P (Unit {0})
  unfolding GroupModel.query_group_users deliver_all
  group_chat conn js = do
    userid ← get_int_at js (codes "id")
    groupid ← get_int_at js (codes "groupid")
    ids ← GroupModel.query_group_users userid groupid
    deliver_all ids (dump js)

  -- What a failed lookup of a Redis message's receiver does: the raw text goes to the table.
  unfoldable pub deliver_notified : Option ConnId → ℤ → Bytes → Bytes → Exec P (Unit {0})
  unfolding OfflineMsgModel.insert
  deliver_notified (some c) userid text raw = emit (sent c text)
  deliver_notified none userid text raw = OfflineMsgModel.insert userid raw

  unfoldable pub handle_redis_subscribe_message : ℤ → Bytes → Exec P (Unit {0})
  unfolding lookup deliver_notified
  handle_redis_subscribe_message userid msg = do
    js ← or_throw (parse msg)
    users ← get_users
    deliver_notified (lookup userid users) userid (dump js) msg
