-- ===== src/Redis.antt =====
-- utils/redis.cpp: the two connections to Redis, the commands, and the thread that reads what is
-- published on the subscribed channels. The hiredis library is a parameter.
pub mod Observer
use high_performance_chatser.Prelude.{
  ℕ, ℤ, zero, suc, Bool, true, false, Bytes, codes, List, [], ◌∷◌, Option, none, some, Result, ok,
  stop, Stop, if◌then◌else◌,
}
use high_performance_chatser.Prelude.Decimal.{fmt_int, atoi}
use high_performance_chatser.Model.Statements.{c_str}

pub record Hiredis : Type 1 where
  pub Context : Type 0
  -- `redisCommand`, on the arguments that the format gives: whether there is a reply.
  pub command : List Bytes → Context → Bool × Context
  -- `redisAppendCommand`: `none` for REDIS_ERR.
  pub append_command : List Bytes → Context → Option Context
  -- `redisBufferWrite`: `none` for REDIS_ERR, else the value of `done`.
  pub buffer_write : Context → Option (Bool × Context)

pub record Redis (H : Hiredis) : Type 0 where
  pub publish_context : Option H.Context
  pub subscribe_context : Option H.Context
  pub observing : Bool  -- the thread of `connect` runs

module _ {H : Hiredis} where
  abbrev pub new_redis : Redis H
  new_redis = record { publish_context = none; subscribe_context = none; observing = false }

  -- `connect`, on what the two calls of `redisConnect` return.
  unfoldable pub connect : Option H.Context → Option H.Context → Redis H → Bool × Redis H
  connect none second r = (false, record r { publish_context = none })
  connect (some c) none r = (false, record r { publish_context = some c; subscribe_context = none })
  connect (some c) (some d) r =
      (true, record { publish_context = some c; subscribe_context = some d; observing = true })

  unfoldable pub publish_on : Option H.Context → ℤ → Bytes → Redis H → Result Bool × Redis H
  unfolding c_str fmt_int
  publish_on none channel message r = (stop Stop.null_deref, r)
  publish_on (some c) channel message r =
      let (replied, c') = H.command (codes "PUBLISH" ∷ fmt_int channel ∷ c_str message ∷ []) c in
      (ok replied, record r { publish_context = some c' })

  -- `publish`, `false` without a reply.
  unfoldable pub publish : ℤ → Bytes → Redis H → Result Bool × Redis H
  unfolding publish_on
  publish channel message r = publish_on r.publish_context channel message r

module _ (H : Hiredis) where
  -- The loop around `redisBufferWrite`, on fuel; `none` is the end of the fuel.
  unfoldable pub write_all : ℕ → H.Context → Option (Bool × H.Context)
  write_all zero c = none
  write_all (suc f) c = elim (H.buffer_write c) [
    | none ↦ some (false, c)
    | some (done, c') ↦ let rest = write_all f c' in if done then some (true, c') else rest
  ]

  -- `subscribe` and `unsubscribe` differ in the word only.
  unfoldable pub send_command : ℕ → Bytes → ℤ → H.Context → Option (Bool × H.Context)
  unfolding write_all fmt_int
  send_command f word channel c = elim (H.append_command (word ∷ fmt_int channel ∷ []) c) [
    | none ↦ some (false, c)
    | some c' ↦ write_all f c'
  ]

  abbrev pub subscribe : ℕ → ℤ → H.Context → Option (Bool × H.Context)
  subscribe f channel c = send_command f (codes "SUBSCRIBE") channel c

  abbrev pub unsubscribe : ℕ → ℤ → H.Context → Option (Bool × H.Context)
  unsubscribe f channel c = send_command f (codes "UNSUBSCRIBE") channel c

-- One element of a reply: a null pointer, an element without text (a number), or a text.
pub data Element : Type 0 where
  no_element no_text : Element
  text : Bytes → Element

abbrev pub channel_of : Element → Result ℤ
channel_of no_element = stop Stop.null_deref
channel_of no_text = stop Stop.null_deref
channel_of (text s) = ok (atoi s)

-- What the loop of `observer_channel_message` hands to the handler for a reply; a null reply and an
-- element that does not exist are read through.
unfoldable pub observe_reply : Option (List Element) → Result (Option (ℤ × Bytes))
unfolding atoi
observe_reply none = ok none
observe_reply (some (e ∷ channel ∷ text message ∷ es)) = elim (channel_of channel) [
  | ok id ↦ ok (some (id, message))
  | stop why ↦ stop why
]
observe_reply (some (e ∷ channel ∷ no_text ∷ es)) = ok none
observe_reply (some (e ∷ channel ∷ no_element ∷ es)) = ok none
observe_reply (some []) = stop Stop.null_deref
observe_reply (some (e ∷ [])) = stop Stop.null_deref
observe_reply (some (e ∷ channel ∷ [])) = stop Stop.null_deref

-- The calls of `NotifyMessageHandler`, in order, and how the loop ends.
unfoldable pub observe : List (Option (List Element)) → List (ℤ × Bytes) × Result (Unit {0})
unfolding observe_reply
observe [] = ([], ok tt)
observe (reply ∷ replies) =
    let (calls, end) = observe replies in
    elim (observe_reply reply) [
      | ok none ↦ (calls, end)
      | ok (some call) ↦ (call ∷ calls, end)
      | stop why ↦ ([], stop why)
    ]
