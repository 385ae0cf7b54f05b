-- ===== src/Net/EventLoop.antt =====
-- webserver/EventLoop.cpp: the functors that wait for a loop, and their calls. A functor is known by
-- what it queues in its own loop when it is called. In this module a round runs without other threads.
pub mod Rounds
pub mod Waking
use high_performance_chatser.Prelude.{
  ℕ, ◌+◌, ◌≡◌, ◌∙◌, refl, sym, ap, Bool, true, false, not, ◌||◌, List, [], ◌∷◌, ◌++◌, append-nil,
  append_assoc, arith, length, length-append, if◌then◌else◌,
}

pub record EventLoop (F : Type 0) : Type 0 where
  pub pending_functors : List F
  pub calling_pending_functors : Bool
  pub wakeups : ℕ  -- the counter of `WakeupFd`
  pub called : List F  -- the functors that were called, in order

module _ {F : Type 0} where
  unfoldable pub wakeup : EventLoop F → EventLoop F
  wakeup l = record l { wakeups = l.wakeups + 1 }

  -- `HandleRead`, which empties the counter.
  unfoldable pub handle_read : EventLoop F → EventLoop F
  handle_read l = record l { wakeups = 0 }

  -- `QueueInloop`, called in the loop's thread or in another one.
  unfoldable pub queue_in_loop : Bool → F → EventLoop F → EventLoop F
  unfolding wakeup
  queue_in_loop in_loop_thread cb l =
      let l' : EventLoop F = record l { pending_functors = l.pending_functors ++ cb ∷ [] } in
      if not in_loop_thread || l.calling_pending_functors then wakeup l' else l'

  unfoldable pub queue_all : List F → EventLoop F → EventLoop F
  unfolding queue_in_loop
  queue_all [] l = l
  queue_all (cb ∷ cbs) l = queue_all cbs (queue_in_loop true cb l)

  module _ (queues : F → List F) where
    -- A call of a functor in the loop's thread.
    unfoldable pub call : F → EventLoop F → EventLoop F
    unfolding queue_all
    call cb l = queue_all (queues cb) (record l { called = l.called ++ cb ∷ [] })

    -- `RunInloop`
    unfoldable pub run_in_loop : Bool → F → EventLoop F → EventLoop F
    unfolding call queue_in_loop
    run_in_loop in_loop_thread cb l =
        if in_loop_thread then call cb l else queue_in_loop in_loop_thread cb l

    unfoldable pub call_all : List F → EventLoop F → EventLoop F
    unfolding call
    call_all [] l = l
    call_all (cb ∷ cbs) l = call_all cbs (call cb l)

    -- `DoPendingFunctors`: what is queued from here on waits for the next round.
    unfoldable pub do_pending_functors : EventLoop F → EventLoop F
    unfolding call_all
    do_pending_functors l =
        let swapped : EventLoop F = record l {
          calling_pending_functors = true;
          pending_functors = [];
        } in
        record (call_all l.pending_functors swapped) { calling_pending_functors = false }

    -- All that a list of functors queues when they are called.
    unfoldable pub queued_by : List F → List F
    queued_by [] = []
    queued_by (cb ∷ cbs) = queues cb ++ queued_by cbs

    queue_all_lem :
        (cbs : List F) (l : EventLoop F)
        → l.calling_pending_functors ≡ true
        → let r = queue_all cbs l in
          (r.called ≡ l.called)
          × (r.pending_functors ≡ l.pending_functors ++ cbs)
          × (r.wakeups ≡ l.wakeups + length cbs)
          × (r.calling_pending_functors ≡ true)
    unfolding queue_all queue_in_loop
    queue_all_lem [] l h = (refl, sym (append-nil l.pending_functors), omega arith, h)
    queue_all_lem (cb ∷ cbs) l h =
        let l' : EventLoop F = record l {
          pending_functors = l.pending_functors ++ cb ∷ [];
          wakeups = l.wakeups + 1;
        } in
        let e : queue_in_loop true cb l ≡ l' = rw h refl in
        let (c, p, w, k) =
          queue_all_lem cbs (queue_in_loop true cb l)
            (ap (λ (r : EventLoop F). r.calling_pending_functors) e ∙ h) in
        (
          c ∙ ap (λ (r : EventLoop F). r.called) e,
          p
              ∙ ap (λ (r : EventLoop F). r.pending_functors ++ cbs) e
              ∙ append_assoc l.pending_functors (cb ∷ []) cbs,
          w ∙ ap (λ (r : EventLoop F). r.wakeups + length cbs) e ∙ omega arith,
          k,
        )

    call_all_lem :
        (cbs : List F) (l : EventLoop F)
        → l.calling_pending_functors ≡ true
        → let r = call_all cbs l in
          (r.called ≡ l.called ++ cbs)
          × (r.pending_functors ≡ l.pending_functors ++ queued_by cbs)
          × (r.wakeups ≡ l.wakeups + length (queued_by cbs))
    unfolding call_all call queued_by
    call_all_lem [] l h =
        (sym (append-nil l.called), sym (append-nil l.pending_functors), omega arith)
    call_all_lem (cb ∷ cbs) l h =
        let (c, p, w, k) =
          queue_all_lem (queues cb) (record l { called = l.called ++ cb ∷ [] }) h in
        let (c', p', w') = call_all_lem cbs (call cb l) k in
        (
          c' ∙ ap (λ x. x ++ cbs) c ∙ append_assoc l.called (cb ∷ []) cbs,
          p'
              ∙ ap (λ x. x ++ queued_by cbs) p
              ∙ append_assoc l.pending_functors (queues cb) (queued_by cbs),
          omega (arith, length-append (queues cb) (queued_by cbs)),
        )

    -- If no other thread queues meanwhile: a round calls the functors that were waiting, each once and in the order in which they were
    -- queued. Those that they queue meanwhile wait for the next round, again in order, and each of
    -- them has woken the loop up, so that the next `poll` does not sleep.
    do_pending_functors_lem :
        (l : EventLoop F)
        → let r = do_pending_functors l in
          (r.called ≡ l.called ++ l.pending_functors)
          × (r.pending_functors ≡ queued_by l.pending_functors)
          × (r.wakeups ≡ l.wakeups + length (queued_by l.pending_functors))
          × (r.calling_pending_functors ≡ false)
    unfolding do_pending_functors
    do_pending_functors_lem l =
        let swapped : EventLoop F = record l {
          calling_pending_functors = true;
          pending_functors = [];
        } in
        let (c, p, w) = call_all_lem l.pending_functors swapped refl in (c, p, w, refl)
