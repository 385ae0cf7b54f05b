-- ===== src/Service/Threads/System.antt =====
-- The threads of the server together: the loop threads and the thread of the Redis observer. Each
-- handles one event at a time, and their steps come in any order.
use high_performance_chatser.Prelude.{
  ℕ, ◌≡◌, List, [], ◌∷◌, Option, none, some, Result, Stop, ok, stop, eqb, if◌then◌else◌,
}
use high_performance_chatser.Platform.{Platform}
use high_performance_chatser.World.{World, Exec}
use high_performance_chatser.Service.Dispatch.{Event}
use high_performance_chatser.Service.Threads.{Thread, over, lock, unlock, calls}
use high_performance_chatser.Service.Threads.Handlers.{thread_of}

abbrev pub set_thread : {P : Platform} → ℕ → Thread P → (ℕ → Thread P) → ℕ → Thread P
set_thread i t threads j = if eqb i j then t else threads j

pub record Server (P : Platform) : Type 1 where
  pub world : World P
  pub threads : ℕ → Thread P
  pub owner : Option ℕ  -- the thread that holds `ConnMutex`
  pub ended : Option Stop  -- why the process has ended

-- No thread has anything to do.
abbrev pub idle_server : {P : Platform} → World P → Server P
idle_server w = record { world = w; threads = λ i. over; owner = none; ended = none }

module _ {P : Platform} where
  -- What comes of a call by thread `i`: an exception that nothing catches ends the process.
  unfoldable pub returns :
      {A : Type 0} → ℕ → (A → Thread P) → Result A × World P → Server P → Server P
  returns i k (ok a, w) s = record s { world = w; threads = set_thread i (k a) s.threads }
  returns i k (stop e, w) s = record s { world = w; ended = some e }

  -- A step of thread `i`, which has an event to handle.
  pub data Step (s : Server P) (i : ℕ) : Server P → Type 1 where
    locks :
        {t : Thread P}
        → s.ended ≡ none
        → s.threads i ≡ lock t
        → s.owner ≡ none
        → Step s i (record s { owner = some i; threads = set_thread i t s.threads })
    unlocks :
        {t : Thread P}
        → s.ended ≡ none
        → s.threads i ≡ unlock t
        → Step s i (record s { owner = none; threads = set_thread i t s.threads })
    calls_out :
        {A : Type 0} {m : Exec P A} {k : A → Thread P}
        → s.ended ≡ none
        → s.threads i ≡ calls m k
        → Step s i (returns i k (m s.world) s)

  -- Runs without new events.
  pub data Proceeds (s : Server P) : Server P → Type 1 where
    stays : Proceeds s s
    goes_on : {t u : Server P} (i : ℕ) → Proceeds s t → Step t i u → Proceeds s u

  -- Runs, with the events that the threads begin to handle, the last one first.
  pub data Reaches (s : Server P) : List (ℕ × Event) → Server P → Type 1 where
    here : Reaches s [] s
    begins :
        {t : Server P} {begun : List (ℕ × Event)} (i : ℕ) (event : Event)
        → Reaches s begun t
        → t.ended ≡ none
        → t.threads i ≡ over
        → Reaches s
            ((i, event) ∷ begun)
            (record t { threads = set_thread i (thread_of event) t.threads })
    then_step :
        {t u : Server P} {begun : List (ℕ × Event)} (i : ℕ)
        → Reaches s begun t
        → Step t i u
        → Reaches s begun u
