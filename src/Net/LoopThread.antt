-- ===== src/Net/LoopThread.antt =====
-- webserver/EventLoopThread.cpp: a thread that builds a loop, and `StartLoop`, which waits for it.
-- What runs under the mutex is one step; `Cond.wait` ends such a step and starts another.
pub mod Handshake
pub mod Quitting
use high_performance_chatser.Prelude.{
  ℕ, ◌≡◌, Bool, true, false, List, [], ◌∷◌, ◌++◌, Option, none, some, if◌then◌else◌,
}

-- The thread that calls `StartLoop`: before the call, at the lock, in `Cond.wait`, or back with the
-- pointer `loop`.
pub data Starter : Type 0 where
  idle looking sleeping : Starter
  returned : Option ℕ → Starter

-- `threadFunc`: not running, before the callback, before its first lock, before
-- `loop.loop()`, in it, or over.
pub data Worker : Type 0 where
  absent building ready entering looping over : Worker

pub record LoopThread : Type 0 where
  pub starter : Starter
  pub worker : Worker
  pub loop : Option ℕ  -- `Loop`, the address of a loop or NULL
  pub called : List ℕ  -- the loops that `Callback` was called with
  pub quitting : Bool  -- `Quit` of the loop
  pub joining : Bool  -- the destructor has come to `thread_.join()`

abbrev pub new_thread : LoopThread
new_thread = record {
  starter = idle;
  worker = absent;
  loop = none;
  called = [];
  quitting = false;
  joining = false;
}

-- `thread_.start()` in `StartLoop`.
abbrev pub start_thread : LoopThread → LoopThread
start_thread s = record s { starter = looking; worker = building }

-- The loop with address `l` and the callback, if there is one.
abbrev pub init_loop : ℕ → Bool → LoopThread → LoopThread
init_loop l callback s = record s {
  worker = ready;
  called = s.called ++ (if callback then l ∷ [] else []);
}

-- The test of the `while` in `StartLoop`, and what follows it.
unfoldable pub looked : Option ℕ → Starter
looked none = sleeping
looked (some l) = returned (some l)

unfoldable pub look : LoopThread → LoopThread
unfolding looked
look s = record s { starter = looked s.loop }

-- `notify_one`
unfoldable pub notified : Starter → Starter
notified idle = idle
notified looking = looking
notified sleeping = looking
notified (returned o) = returned o

-- The first locked part of `threadFunc`.
unfoldable pub publish_loop : ℕ → LoopThread → LoopThread
unfolding notified
publish_loop l s = record s { worker = entering; loop = some l; starter = notified s.starter }

-- The call of `EventLoop::quit` in the destructor; a null pointer is left alone.
unfoldable pub quits : Option ℕ → Bool → Bool
quits none quitting = quitting
quits (some l) quitting = true

unfoldable pub destroy_thread : LoopThread → LoopThread
unfolding quits
destroy_thread s = record s { quitting = quits s.loop s.quitting; joining = true }

-- `EventLoop::loop` begins with `Quit = false`.
abbrev pub enter_loop : LoopThread → LoopThread
enter_loop s = record s { worker = looping; quitting = false }

-- The last locked part of `threadFunc`.
abbrev pub end_loop : LoopThread → LoopThread
end_loop s = record s { worker = over; loop = none }

-- A step of either thread. The owner destroys the object after `StartLoop` has returned.
pub data Step (l : ℕ) (callback : Bool) (s : LoopThread) : LoopThread → Type 0 where
  starts : s.starter ≡ idle → s.worker ≡ absent → Step l callback s (start_thread s)
  inits : s.worker ≡ building → Step l callback s (init_loop l callback s)
  looks : s.starter ≡ looking → Step l callback s (look s)
  wakes_by_itself : s.starter ≡ sleeping → Step l callback s (record s { starter = looking })
  publishes : s.worker ≡ ready → Step l callback s (publish_loop l s)
  enters : s.worker ≡ entering → Step l callback s (enter_loop s)
  destroys :
      (o : Option ℕ)
      → s.starter ≡ returned o
      → s.joining ≡ false
      → Step l callback s (destroy_thread s)
  ends : s.worker ≡ looping → s.quitting ≡ true → Step l callback s (end_loop s)

-- A step that the code takes, and not a wakeup of the condition variable without a call.
abbrev pub IsTaken : {l : ℕ} {callback : Bool} {s t : LoopThread} → Step l callback s t → Type 0
IsTaken (wakes_by_itself e) = ⊥
IsTaken step = Unit

-- What the code alone can do.
pub data Continues (l : ℕ) (callback : Bool) (s : LoopThread) : LoopThread → Type 0 where
  done : Continues l callback s s
  then_takes :
      {t u : LoopThread}
      → Continues l callback s t
      → (step : Step l callback t u) → IsTaken step
      → Continues l callback s u

pub data Reaches (l : ℕ) (callback : Bool) (s : LoopThread) : LoopThread → Type 0 where
  here : Reaches l callback s s
  then_step :
      {t u : LoopThread} → Reaches l callback s t → Step l callback t u → Reaches l callback s u
