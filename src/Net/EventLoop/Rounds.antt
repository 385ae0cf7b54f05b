-- ===== src/Net/EventLoop/Rounds.antt =====
-- `EventLoop::loop` with the threads that queue functors for it and make it quit. A functor is known
-- by a name. What the channels' handlers and the functors do beside queueing is left open, as is when
-- `poll` returns: it waits for a second at most.
use high_performance_chatser.Prelude.{
  ℕ, suc, ◌+◌, ◌≡◌, ◌⊎◌, Bool, true, false, List, [], ◌∷◌, ◌++◌, if◌then◌else◌,
}
use high_performance_chatser.Net.EventLoop.{EventLoop, wakeup, handle_read, queue_in_loop}

-- Where the loop's thread is: before `loop`, at the test of `Quit`, in `poll`, in the handlers of the
-- active channels, in `DoPendingFunctors`, or behind the loop.
pub data Phase : Type 0 where
  starting testing polling handling calling finished : Phase

pub record Running (F : Type 0) : Type 0 where
  pub loop : EventLoop F
  pub phase : Phase
  pub functors : List F  -- of `DoPendingFunctors`, those that are still to be called
  pub quit : Bool  -- `Quit`
  pub wakers : ℕ  -- other threads that are about to call `Wakeup`

module _ {F : Type 0} where
  -- The constructor.
  abbrev pub new_event_loop : EventLoop F
  new_event_loop = record {
    pending_functors = [];
    calling_pending_functors = false;
    wakeups = 0;
    called = [];
  }

  abbrev pub new_running : Running F
  new_running = record {
    loop = new_event_loop;
    phase = starting;
    functors = [];
    quit = false;
    wakers = 0;
  }

  -- The locked part of `QueueInloop`.
  abbrev pub push : F → EventLoop F → EventLoop F
  push cb l = record l { pending_functors = l.pending_functors ++ cb ∷ [] }

  -- `DoPendingFunctors` up to the first call.
  unfoldable pub swap_functors : Running F → Running F
  swap_functors s = record s {
    loop = record s.loop { calling_pending_functors = true; pending_functors = [] };
    functors = s.loop.pending_functors;
    phase = calling;
  }

  -- The end of `DoPendingFunctors`.
  unfoldable pub end_functors : Running F → Running F
  end_functors s = record s {
    loop = record s.loop { calling_pending_functors = false };
    phase = testing;
  }

  -- A step, and the functors that it queues.
  pub data Step (s : Running F) : List F → Running F → Type 0 where
    -- Other threads: `QueueInloop`, `quit`, and the `Wakeup` of either.
    queues : (cb : F) → Step s (cb ∷ []) (record s { loop = push cb s.loop; wakers = s.wakers + 1 })
    quits : Step s [] (record s { quit = true; wakers = s.wakers + 1 })
    wakes : (n : ℕ) → s.wakers ≡ suc n → Step s [] (record s { loop = wakeup s.loop; wakers = n })
    -- The loop's thread: `QueueInloop` and `quit` in a handler or a functor.
    queues_here :
        (cb : F)
        → (s.phase ≡ handling) ⊎ (s.phase ≡ calling)
        → Step s (cb ∷ []) (record s { loop = queue_in_loop true cb s.loop })
    quits_here : (s.phase ≡ handling) ⊎ (s.phase ≡ calling) → Step s [] (record s { quit = true })
    -- The loop's thread: `loop`.
    enters : s.phase ≡ starting → Step s [] (record s { phase = testing; quit = false })
    tests :
        s.phase ≡ testing → Step s [] (record s { phase = if s.quit then finished else polling })
    polled : s.phase ≡ polling → Step s [] (record s { phase = handling })
    reads : s.phase ≡ handling → Step s [] (record s { loop = handle_read s.loop })
    swaps : s.phase ≡ handling → Step s [] (swap_functors s)
    calls :
        (cb : F) (rest : List F)
        → s.phase ≡ calling
        → s.functors ≡ cb ∷ rest
        → Step s [] (record s {
          loop = record s.loop { called = s.loop.called ++ cb ∷ [] };
          functors = rest;
        })
    ends : s.phase ≡ calling → s.functors ≡ [] → Step s [] (end_functors s)

  -- Runs from the constructor on, with the functors that were queued, in order.
  pub data Reaches : List F → Running F → Type 0 where
    here : Reaches [] new_running
    then_step :
        {queued more : List F} {s t : Running F}
        → Reaches queued s
        → Step s more t
        → Reaches (queued ++ more) t
