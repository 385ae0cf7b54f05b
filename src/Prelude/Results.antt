-- ===== src/Prelude/Results.antt =====
-- How a C++ call ends: with a value, with an uncaught exception of the JSON library, or in
-- undefined behaviour that the model names.
use mathlib.Core.Option.{Option, none, some}

pub data Stop : Type 0 where
  json_exception : Stop  -- `parse_error` or `type_error`, which nothing catches
  buffer_overrun : Stop  -- an access past the end of an array
  null_deref : Stop
  empty_front : Stop  -- `front()` of an empty queue
  undefined_call : Stop  -- a call whose behaviour C++ leaves undefined

pub data Result {ℓ} (A : Type ℓ) : Type ℓ where
  ok : A → Result A
  stop : Stop → Result A

-- A JSON access that may throw.
abbrev pub need {ℓ} : {A : Type ℓ} → Option A → Result A
need none = stop Stop.json_exception
need (some a) = ok a

abbrev pub then_do {ℓ κ} : {A : Type ℓ} {B : Type κ} → Result A → (A → Result B) → Result B
then_do (ok a) f = f a
then_do (stop e) f = stop e
