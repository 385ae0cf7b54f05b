-- ===== src/Service/Threads.antt =====
-- The handlers of chatservice.cpp as the loop threads run them: one call after the other, with the
-- places where `ConnMutex` is locked and unlocked. Another thread may run between any two of these.
pub mod Handlers
pub mod System
pub mod Guarded
pub mod Locking
pub mod Progress
pub mod Admitted
pub mod Entering
pub mod Amid
use high_performance_chatser.Prelude.{ℤ, Bool, Map, if◌then◌else◌}
use high_performance_chatser.Platform.{Platform}
use high_performance_chatser.World.{World, ConnId, Exec, get_users, put_users}
use high_performance_chatser.World

-- What a thread has still to do. A call is one step: a member function of a model class, a Redis
-- command, a `send`, an operation on the map.
pub data Thread (P : Platform) : Type 1 where
  over : Thread P
  lock : Thread P → Thread P
  unlock : Thread P → Thread P
  calls : {A : Type 0} → Exec P A → (A → Thread P) → Thread P

-- A part of a handler, by what follows it.
abbrev pub Part : Platform → Type 0 → Type 1
Part P A = (A → Thread P) → Thread P

module _ {P : Platform} where
  abbrev pub pure : {A : Type 0} → A → Part P A
  pure a k = k a

  abbrev pub call : {A : Type 0} → Exec P A → Part P A
  call m k = calls m k

  infixl 10 ◌>>=◌ ◌>>◌
  unfoldable pub ◌>>=◌ : {A B : Type 0} → Part P A → (A → Part P B) → Part P B
  ◌>>=◌ m f k = m (λ a. f a k)

  abbrev pub ◌>>◌ : {A B : Type 0} → Part P A → Part P B → Part P B
  m >> n = m >>= λ _. n

  -- A block with a `lock_guard`, which unlocks however the block is left.
  unfoldable pub locked : {A : Type 0} → Part P A → Part P A
  locked m k = lock (m (λ a. unlock (k a)))

  -- One operation on the map, which gives the map before it.
  unfoldable pub change_users : (Map ℤ ConnId → Map ℤ ConnId) → Exec P (Map ℤ ConnId)
  unfolding World.◌>>=◌
  change_users f =
      World.◌>>=◌ get_users (λ users. World.◌>>◌ (put_users (f users)) (World.pure users))
