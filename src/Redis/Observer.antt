-- ===== src/Redis/Observer.antt =====
-- What was published reaches the handler.
use high_performance_chatser.Prelude.{ℤ, ◌≡◌, refl, Bytes, codes, List, [], ◌∷◌, Option, some, ok}
use high_performance_chatser.Prelude.Decimal.{fmt_int, atoi_whole}
use high_performance_chatser.Redis.{Element, text, no_text, observe_reply, observe}

-- What the server of a subscriber receives: a message, or the confirmation of a subscription.
pub data Reply : Type 0 where
  message : ℤ → Bytes → Reply
  confirmation : Bytes → ℤ → Reply

-- The replies of Redis as hiredis presents them.
abbrev pub elements : Reply → Option (List Element)
elements (message channel body) =
    some (text (codes "message") ∷ text (fmt_int channel) ∷ text body ∷ [])
elements (confirmation word channel) = some (text word ∷ text (fmt_int channel) ∷ no_text ∷ [])

abbrev pub all_elements : List Reply → List (Option (List Element))
all_elements [] = []
all_elements (r ∷ rs) = elements r ∷ all_elements rs

abbrev pub messages : List Reply → List (ℤ × Bytes)
messages [] = []
messages (message channel body ∷ rs) = (channel, body) ∷ messages rs
messages (confirmation word channel ∷ rs) = messages rs

-- The observer hands each published message to the handler, once, with the number of its channel
-- and in the order of arrival; the confirmations of subscriptions are skipped, and nothing fails.
pub observe-messages : (rs : List Reply) → observe (all_elements rs) ≡ (messages rs, ok tt)
unfolding observe observe_reply
observe-messages [] = refl
observe-messages (message channel body ∷ rs) =
    rw (atoi_whole channel) (rw (observe-messages rs) refl)
observe-messages (confirmation word channel ∷ rs) = rw (observe-messages rs) refl
