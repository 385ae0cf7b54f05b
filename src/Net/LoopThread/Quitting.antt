-- ===== src/Net/LoopThread/Quitting.antt =====
-- The destructor against a thread that has not come to its loop.
use high_performance_chatser.Prelude.{ℕ, ◌≡◌, ◌≢◌, refl, Bool, true, false, some}
use high_performance_chatser.Net.LoopThread.{
  returned, looping, over, LoopThread, new_thread, look, looked, publish_loop, notified, quits,
  destroy_thread, Step, starts, inits, looks, wakes_by_itself, publishes, enters, destroys, ends,
  Reaches, here, then_step,
}

-- The destructor waits for a thread that has forgotten its `quit`.
record IsStuck (l : ℕ) (s : LoopThread) : Type 0 where
  back : s.starter ≡ returned (some l)
  runs : s.worker ≡ looping
  unaware : s.quitting ≡ false
  waits : s.joining ≡ true

no_way_out : {l : ℕ} {callback : Bool} {s t : LoopThread} → Step l callback s t → IsStuck l s → ⊥
no_way_out (starts e e') v = let a = v.back in cc
no_way_out (inits e) v = let a = v.runs in cc
no_way_out (looks e) v = let a = v.back in cc
no_way_out (wakes_by_itself e) v = let a = v.back in cc
no_way_out (publishes e) v = let a = v.runs in cc
no_way_out (enters e) v = let a = v.runs in cc
no_way_out (destroys o e e') v = let a = v.waits in cc
no_way_out (ends e e') v = let a = v.unaware in cc

stays-IsStuck :
    {l : ℕ} {callback : Bool} {s t : LoopThread}
    → Reaches l callback s t
    → IsStuck l s
    → IsStuck l t
stays-IsStuck here v = v
stays-IsStuck (then_step r step) v = absurd (no_way_out step (stays-IsStuck r v))

-- If the destructor runs after `StartLoop` has returned and before the thread has entered its loop,
-- the thread forgets the `quit`: such a state is reachable, and from there the thread never ends, so
-- that the `join` of the destructor never returns.
pub quit_forgotten :
    (l : ℕ) (callback : Bool)
    → (s : LoopThread) × Reaches l callback new_thread s
      × (s.joining ≡ true)
      × ((t : LoopThread) → Reaches l callback s t → t.worker ≢ over)
unfolding look looked publish_loop notified destroy_thread quits
quit_forgotten l callback =
    let published =
      then_step (then_step (then_step here (starts refl refl)) (inits refl)) (publishes refl) in
    let destroyed = then_step (then_step published (looks refl)) (destroys (some l) refl refl) in
    (
      _,
      then_step destroyed (enters refl),
      refl,
      λ t r e.
          let v =
            (stays-IsStuck r
              (record { back = refl; runs = refl; unaware = refl; waits = refl })).runs in
          cc,
    )
