-- ===== src/Tests/Loops.antt =====
-- Runs of an event loop for which another thread queues.
use high_performance_chatser.Prelude.{ℕ, true, ◌<◌, ◌+◌, ◌≡◌, refl, inl, List, [], ◌∷◌, ◌++◌}
use high_performance_chatser.Net.EventLoop.{wakeup}
use high_performance_chatser.Net.EventLoop.Rounds.{
  polling, calling, Running, new_running, new_event_loop, push, swap_functors, enters, tests,
  queues, wakes, polled, swaps, calls, Reaches, here, then_step,
}
use high_performance_chatser.Net.EventLoop.Waking.{poll_is_woken, called_in_order}

-- Functor 5 was queued while the loop waits.
abbrev waiting : Running ℕ
waiting = record new_running { loop = push 5 new_event_loop; phase = polling; wakers = 1 }

Reaches-waiting : Reaches (5 ∷ []) waiting
Reaches-waiting = then_step (then_step (then_step here (enters refl)) (tests refl)) (queues 5)

poll_is_woken_example : 0 < waiting.loop.wakeups + waiting.wakers
poll_is_woken_example = poll_is_woken (5 ∷ []) waiting Reaches-waiting refl (inl (λ e. cc))

-- Functor 5 is being called, and functor 6 was queued meanwhile.
abbrev in_round : Running ℕ
in_round = record new_running {
  loop = record {
    pending_functors = 6 ∷ [];
    calling_pending_functors = true;
    wakeups = 1;
    called = 5 ∷ [];
  };
  phase = calling;
  wakers = 1;
}

Reaches-in_round : Reaches (5 ∷ 6 ∷ []) in_round
unfolding wakeup swap_functors
Reaches-in_round =
    then_step
      (then_step
        (then_step (then_step (then_step Reaches-waiting (wakes 0 refl)) (polled refl))
          (swaps refl))
        (queues 6))
      (calls 5 [] refl refl)

called_in_order_example :
    ◌≡◌ {A = List ℕ}
      (5 ∷ 6 ∷ [])
      (in_round.loop.called ++ in_round.functors ++ in_round.loop.pending_functors)
called_in_order_example = called_in_order (5 ∷ 6 ∷ []) in_round Reaches-in_round
