-- ===== src/Net/LoopThread/Handshake.antt =====
-- What `StartLoop` returns, and that it can return.
use high_performance_chatser.Prelude.{
  ℕ, ◌≡◌, ◌∙◌, ◌⊎◌, inl, inr, refl, sym, ap, subst, Bool, true, false, List, [], ◌∷◌, ◌++◌, Option,
  none, some, if◌then◌else◌,
}
use high_performance_chatser.Net.LoopThread.{
  Starter, idle, looking, sleeping, returned, Worker, absent, building, ready, entering, looping,
  over, LoopThread, new_thread, start_thread, init_loop, looked, look, notified, publish_loop,
  quits, destroy_thread, Step, starts, inits, looks, wakes_by_itself, publishes, enters, destroys,
  ends, Reaches, here, then_step, IsTaken, Continues, done, then_takes,
}

module _ (l : ℕ) (callback : Bool) where
  abbrev pub inited : List ℕ
  inited = if callback then l ∷ [] else []

  abbrev IsWaiting : Starter → Type 0
  IsWaiting looking = Unit
  IsWaiting sleeping = Unit
  IsWaiting idle = ⊥
  IsWaiting (returned o) = ⊥

  abbrev IsServed : Starter → Bool → Type 0
  IsServed looking joining = joining ≡ false
  IsServed (returned o) joining = o ≡ some l
  IsServed idle joining = ⊥
  IsServed sleeping joining = ⊥

  -- The loop is there, and only the destructor quits it.
  abbrev IsUp : Starter → Option ℕ → List ℕ → Bool → Bool → Type 0
  IsUp starter loop called quitting joining =
      IsServed starter joining
      × (loop ≡ some l)
      × (called ≡ inited)
      × (quitting ≡ true → joining ≡ true)

  abbrev IsStage : Worker → Starter → Option ℕ → List ℕ → Bool → Bool → Type 0
  IsStage absent starter loop called quitting joining =
      (starter ≡ idle) × (loop ≡ none) × (called ≡ []) × (quitting ≡ false) × (joining ≡ false)
  IsStage building starter loop called quitting joining =
      IsWaiting starter × (loop ≡ none) × (called ≡ []) × (quitting ≡ false) × (joining ≡ false)
  IsStage ready starter loop called quitting joining =
      IsWaiting starter × (loop ≡ none) × (called ≡ inited) × (quitting ≡ false) × (joining ≡ false)
  IsStage entering starter loop called quitting joining = IsUp starter loop called quitting joining
  IsStage looping starter loop called quitting joining = IsUp starter loop called quitting joining
  IsStage over starter loop called quitting joining =
      (starter ≡ returned (some l)) × (called ≡ inited) × (joining ≡ true)

  -- How the threads stand together.
  abbrev IsOrdered : LoopThread → Type 0
  IsOrdered s = IsStage s.worker s.starter s.loop s.called s.quitting s.joining

  looks-IsStage :
      (worker : Worker) (loop : Option ℕ) (called : List ℕ) (quitting joining : Bool)
      → IsStage worker looking loop called quitting joining
      → IsStage worker (looked loop) loop called quitting joining
  unfolding looked
  looks-IsStage absent loop called quitting joining v = cc
  looks-IsStage building loop called quitting joining (w, empty, cs, q, j) =
      (rw empty tt, empty, cs, q, j)
  looks-IsStage ready loop called quitting joining (w, empty, cs, q, j) =
      (rw empty tt, empty, cs, q, j)
  looks-IsStage entering loop called quitting joining (w, full, cs, q) = (rw full refl, full, cs, q)
  looks-IsStage looping loop called quitting joining (w, full, cs, q) = (rw full refl, full, cs, q)
  looks-IsStage over loop called quitting joining v = cc

  wakes-IsStage :
      (worker : Worker) (loop : Option ℕ) (called : List ℕ) (quitting joining : Bool)
      → IsStage worker sleeping loop called quitting joining
      → IsStage worker looking loop called quitting joining
  wakes-IsStage absent loop called quitting joining v = cc
  wakes-IsStage building loop called quitting joining v = v
  wakes-IsStage ready loop called quitting joining v = v
  wakes-IsStage entering loop called quitting joining v = absurd v.0
  wakes-IsStage looping loop called quitting joining v = absurd v.0
  wakes-IsStage over loop called quitting joining v = cc

  publishes-IsStage :
      (starter : Starter) (loop : Option ℕ) (called : List ℕ) (quitting joining : Bool)
      → IsStage ready starter loop called quitting joining
      → IsStage entering (notified starter) (some l) called quitting joining
  unfolding notified
  publishes-IsStage idle loop called quitting joining v = absurd v.0
  publishes-IsStage (returned o) loop called quitting joining v = absurd v.0
  publishes-IsStage looking loop called quitting joining (w, empty, cs, q, j) =
      (j, refl, cs, λ e. cc)
  publishes-IsStage sleeping loop called quitting joining (w, empty, cs, q, j) =
      (j, refl, cs, λ e. cc)

  destroys-IsStage :
      (worker : Worker) (o loop : Option ℕ) (called : List ℕ) (quitting joining : Bool)
      → IsStage worker (returned o) loop called quitting joining
      → IsStage worker (returned o) loop called (quits loop quitting) true
  destroys-IsStage absent o loop called quitting joining v = cc
  destroys-IsStage building o loop called quitting joining v = absurd v.0
  destroys-IsStage ready o loop called quitting joining v = absurd v.0
  destroys-IsStage entering o loop called quitting joining (w, full, cs, q) =
      (w, full, cs, λ e. refl)
  destroys-IsStage looping o loop called quitting joining (w, full, cs, q) =
      (w, full, cs, λ e. refl)
  destroys-IsStage over o loop called quitting joining (e, cs, j) = (e, cs, refl)

  ends-IsStage :
      (starter : Starter) (loop : Option ℕ) (called : List ℕ) (quitting joining : Bool)
      → quitting ≡ true
      → IsStage looping starter loop called quitting joining
      → IsStage over starter none called quitting joining
  ends-IsStage idle loop called quitting joining e v = absurd v.0
  ends-IsStage sleeping loop called quitting joining e v = absurd v.0
  ends-IsStage looking loop called quitting joining e (w, full, cs, q) = let j = q e in cc
  ends-IsStage (returned o) loop called quitting joining e (w, full, cs, q) =
      (ap returned w, cs, q e)

  -- The same stage, said of a value that equals a part of the state.
  at_worker :
      (s : LoopThread) {w : Worker}
      → s.worker ≡ w
      → IsOrdered s
      → IsStage w s.starter s.loop s.called s.quitting s.joining
  at_worker s e v = subst (λ w. IsStage w s.starter s.loop s.called s.quitting s.joining) e v

  at_starter :
      (s : LoopThread) {st : Starter}
      → s.starter ≡ st
      → IsOrdered s
      → IsStage s.worker st s.loop s.called s.quitting s.joining
  at_starter s e v = subst (λ st. IsStage s.worker st s.loop s.called s.quitting s.joining) e v

  step-IsOrdered : {s t : LoopThread} → Step l callback s t → IsOrdered s → IsOrdered t
  unfolding look publish_loop destroy_thread
  step-IsOrdered {s} (starts e e') v =
      let (_, empty, cs, q, j) = at_worker s e' v in (tt, empty, cs, q, j)
  step-IsOrdered {s} (inits e) v =
      let (w, empty, cs, q, j) = at_worker s e v in (w, empty, ap (λ c. c ++ inited) cs, q, j)
  step-IsOrdered {s} (looks e) v =
      looks-IsStage s.worker s.loop s.called s.quitting s.joining (at_starter s e v)
  step-IsOrdered {s} (wakes_by_itself e) v =
      wakes-IsStage s.worker s.loop s.called s.quitting s.joining (at_starter s e v)
  step-IsOrdered {s} (publishes e) v =
      publishes-IsStage s.starter s.loop s.called s.quitting s.joining (at_worker s e v)
  step-IsOrdered {s} (enters e) v = let (w, full, cs, q) = at_worker s e v in (w, full, cs, λ h. cc)
  step-IsOrdered {s} (destroys o e e') v =
      subst (λ st. IsStage s.worker st s.loop s.called (quits s.loop s.quitting) true) (sym e)
        (destroys-IsStage s.worker o s.loop s.called s.quitting s.joining (at_starter s e v))
  step-IsOrdered {s} (ends e e') v =
      ends-IsStage s.starter s.loop s.called s.quitting s.joining e' (at_worker s e v)

  reached-IsOrdered : {s : LoopThread} → Reaches l callback new_thread s → IsOrdered s
  reached-IsOrdered here = (refl, refl, refl, refl, refl)
  reached-IsOrdered (then_step r step) = step-IsOrdered step (reached-IsOrdered r)

  -- The thread is about to enter its loop, or in it.
  abbrev pub IsAlive : LoopThread → Type 0
  IsAlive s = ((s.worker ≡ entering) ⊎ (s.worker ≡ looping)) × (s.loop ≡ some l)

  returned_stage :
      (worker : Worker) (o loop : Option ℕ) (called : List ℕ) (quitting joining : Bool)
      → IsStage worker (returned o) loop called quitting joining
      → (o ≡ some l)
        × (called ≡ inited)
        × (joining ≡ false → ((worker ≡ entering) ⊎ (worker ≡ looping)) × (loop ≡ some l))
  returned_stage absent o loop called quitting joining v = cc
  returned_stage building o loop called quitting joining v = absurd v.0
  returned_stage ready o loop called quitting joining v = absurd v.0
  returned_stage entering o loop called quitting joining (w, full, cs, q) =
      (w, cs, λ _. (inl refl, full))
  returned_stage looping o loop called quitting joining (w, full, cs, q) =
      (w, cs, λ _. (inr refl, full))
  returned_stage over o loop called quitting joining (e, cs, j) = (cc, cs, λ h. cc)

  -- The call of `StartLoop` can return from here.
  abbrev CanReturn : LoopThread → Type 0
  CanReturn s = (t : LoopThread) × Continues l callback s t × (t.starter ≡ returned (some l))

  step-Continues :
      {s t u : LoopThread} (step : Step l callback s t)
      → IsTaken step
      → Continues l callback t u
      → Continues l callback s u
  step-Continues step taken done = then_takes done step taken
  step-Continues step taken (then_takes r last taken') =
      then_takes (step-Continues step taken r) last taken'

  step-CanReturn :
      {s t : LoopThread} (step : Step l callback s t) → IsTaken step → CanReturn t → CanReturn s
  step-CanReturn step taken (u, r, e) = (u, step-Continues step taken r, e)

  looking-CanReturn : (s : LoopThread) → s.starter ≡ looking → s.loop ≡ some l → CanReturn s
  unfolding look looked
  looking-CanReturn s e full = (look s, then_takes done (looks e) tt, ap looked full)

  ready-CanReturn : (s : LoopThread) → s.worker ≡ ready → IsWaiting s.starter → CanReturn s
  unfolding publish_loop notified
  ready-CanReturn s e w =
      step-CanReturn (publishes e) tt
        (looking-CanReturn (publish_loop l s) (notified_waiting s.starter w) refl)
    where
      notified_waiting : (starter : Starter) → IsWaiting starter → notified starter ≡ looking
      notified_waiting looking w = refl
      notified_waiting sleeping w = refl
      notified_waiting idle w = absurd w
      notified_waiting (returned o) w = absurd w

  building-CanReturn : (s : LoopThread) → s.worker ≡ building → IsWaiting s.starter → CanReturn s
  building-CanReturn s e w =
      step-CanReturn (inits e) tt (ready-CanReturn (init_loop l callback s) refl w)

  IsStage-CanReturn :
      (s : LoopThread) (worker : Worker) (starter : Starter)
      → s.worker ≡ worker
      → s.starter ≡ starter
      → IsStage worker starter s.loop s.called s.quitting s.joining
      → CanReturn s
  IsStage-CanReturn s absent starter e e' (idles, empty, cs, q, j) =
      step-CanReturn (starts (e' ∙ idles) e) tt (building-CanReturn (start_thread s) refl tt)
  IsStage-CanReturn s building starter e e' v =
      building-CanReturn s e (subst IsWaiting (sym e') v.0)
  IsStage-CanReturn s ready starter e e' v = ready-CanReturn s e (subst IsWaiting (sym e') v.0)
  IsStage-CanReturn s entering idle e e' v = absurd v.0
  IsStage-CanReturn s entering sleeping e e' v = absurd v.0
  IsStage-CanReturn s entering looking e e' v = looking-CanReturn s e' v.1
  IsStage-CanReturn s entering (returned o) e e' v = (s, done, e' ∙ ap returned v.0)
  IsStage-CanReturn s looping idle e e' v = absurd v.0
  IsStage-CanReturn s looping sleeping e e' v = absurd v.0
  IsStage-CanReturn s looping looking e e' v = looking-CanReturn s e' v.1
  IsStage-CanReturn s looping (returned o) e e' v = (s, done, e' ∙ ap returned v.0)
  IsStage-CanReturn s over starter e e' v = (s, done, e' ∙ v.0)

-- Whatever the order of the two threads' steps: when `StartLoop` has returned, it has returned the
-- loop that the thread has built, never a null pointer, after the callback was called with this loop
-- if there is one; and until the destructor runs, the loop is alive.
pub start_loop_returns_loop :
    (l : ℕ) (callback : Bool) (s : LoopThread) (o : Option ℕ)
    → Reaches l callback new_thread s
    → s.starter ≡ returned o
    → (o ≡ some l) × (s.called ≡ inited l callback) × (s.joining ≡ false → IsAlive l callback s)
start_loop_returns_loop l callback s o r e =
    returned_stage l callback s.worker o s.loop s.called s.quitting s.joining
      (at_starter l callback s e (reached-IsOrdered l callback r))

-- No wakeup is lost: from every state that the two threads reach, steps of the code alone, without a
-- wakeup that nobody has called for, lead to a state in which `StartLoop` has returned the loop.
pub start_loop_can_return :
    (l : ℕ) (callback : Bool) (s : LoopThread)
    → Reaches l callback new_thread s
    → (t : LoopThread) × Continues l callback s t × (t.starter ≡ returned (some l))
start_loop_can_return l callback s r =
    IsStage-CanReturn l callback s s.worker s.starter refl refl (reached-IsOrdered l callback r)
