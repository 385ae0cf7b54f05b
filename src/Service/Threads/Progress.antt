-- ===== src/Service/Threads/Progress.antt =====
-- The runs by which a thread comes to the end of the event that it handles.
use high_performance_chatser.Prelude.{
  true, ℕ, ◌≡◌, ◌≢◌, ◌∙◌, ◌⊎◌, inl, inr, refl, sym, subst, ap, false, List, Option, none, some,
  Result, ok, stop, Bool-cases, eqb, eqb_iff,
}
use high_performance_chatser.Platform.{Platform}
use high_performance_chatser.World.{World, Exec}
use high_performance_chatser.Service.Dispatch.{Event}
use high_performance_chatser.Service.Threads.{Thread, over, lock, unlock, calls}
use high_performance_chatser.Service.Threads.Guarded.{IsGuarded}
use high_performance_chatser.Service.Threads.Locking.{holds, holds_own, IsMutex, reached-IsMutex}
use high_performance_chatser.Service.Threads.System.{
  Server, set_thread, idle_server, returns, Step, locks, unlocks, calls_out, Proceeds, stays,
  goes_on, Reaches,
}

module _ {P : Platform} where
  step-Proceeds : {i : ℕ} {s t u : Server P} → Step s i t → Proceeds t u → Proceeds s u
  step-Proceeds {i} step stays = goes_on i stays step
  step-Proceeds step (goes_on j r last) = goes_on j (step-Proceeds step r) last

  Proceeds-Proceeds : {s t u : Server P} → Proceeds s t → Proceeds t u → Proceeds s u
  Proceeds-Proceeds p stays = p
  Proceeds-Proceeds p (goes_on j r last) = goes_on j (Proceeds-Proceeds p r) last

  -- Thread `i` can finish what it does, and leaves the other threads alone.
  abbrev Finishes : ℕ → Server P → Type 1
  Finishes i s =
      (s' : Server P) × Proceeds s s'
      × ((s'.ended ≢ none)
          ⊎ ((s'.ended ≡ none)
              × (s'.threads i ≡ over)
              × (s'.owner ≡ none)
              × ((j : ℕ) → eqb i j ≡ false → s'.threads j ≡ s.threads j)))

  step-Finishes :
      {i : ℕ} {s s' : Server P}
      → Step s i s'
      → ((j : ℕ) → eqb i j ≡ false → s'.threads j ≡ s.threads j)
      → Finishes i s'
      → Finishes i s
  step-Finishes step others (u, r, inl crashed) = (u, step-Proceeds step r, inl crashed)
  step-Finishes step others (u, r, inr (e, done, free, rest)) =
      (u, step-Proceeds step r, inr (e, done, free, λ j away. rest j away ∙ others j away))

  set_thread_other :
      (i : ℕ) (t : Thread P) (threads : ℕ → Thread P) (j : ℕ)
      → eqb i j ≡ false
      → set_thread i t threads j ≡ threads j
  set_thread_other i t threads j away = rw away refl

  set_thread_own : (i : ℕ) (t : Thread P) (threads : ℕ → Thread P) → set_thread i t threads i ≡ t
  set_thread_own i t threads = let same = (eqb_iff i i).1 refl in rw same refl

  -- A thread that can have the mutex.
  abbrev IsFree : ℕ → Server P → Type 0
  IsFree i s = (s.owner ≡ none) ⊎ (s.owner ≡ some i)

  called-Finishes :
      {A : Type 0} (s : Server P) (i : ℕ) (m : Exec P A) (k : A → Thread P) (r : Result A)
      (w : World P)
      → s.ended ≡ none
      → s.threads i ≡ calls m k
      → m s.world ≡ (r, w)
      → ((a : A) (s' : Server P)
          → s'.ended ≡ none
          → s'.threads i ≡ k a
          → s'.owner ≡ s.owner
          → Finishes i s')
      → Finishes i s
  unfolding returns
  called-Finishes s i m k (ok a) w e next result rest =
      let s' : Server P = record s { world = w; threads = set_thread i (k a) s.threads } in
      let step : Step s i s' = subst (λ r. Step s i (returns i k r s)) result (calls_out e next) in
      step-Finishes step (set_thread_other i (k a) s.threads)
        (rest a s' e (set_thread_own i (k a) s.threads) refl)
  called-Finishes s i m k (stop x) w e next result rest =
      let s' : Server P = record s { world = w; ended = some x } in
      let step : Step s i s' = subst (λ r. Step s i (returns i k r s)) result (calls_out e next) in
      (s', goes_on i stays step, inl (λ h. cc))

  IsFree-Finishes :
      (t : Thread P) (s : Server P) (i : ℕ)
      → s.ended ≡ none
      → s.threads i ≡ t
      → IsGuarded true (holds s.owner i) t
      → IsFree i s
      → Finishes i s
  IsFree-Finishes over s i e next g (inl free) = (s, stays, inr (e, next, free, λ j away. refl))
  IsFree-Finishes over s i e next g (inr own) =
      absurd (let a = holds_own i in let b = ap (λ o. holds o i) own in cc)
  IsFree-Finishes (lock t) s i e next g (inl free) =
      let s' : Server P = record s { owner = some i; threads = set_thread i t s.threads } in
      step-Finishes {s' = s'} (locks e next free) (set_thread_other i t s.threads) (
        IsFree-Finishes t s' i e (set_thread_own i t s.threads)
          (subst (λ b. IsGuarded true b t) (sym (holds_own i)) g.1) (inr refl))
  IsFree-Finishes (lock t) s i e next g (inr own) =
      absurd (let a = holds_own i in let b = ap (λ o. holds o i) own in let c = g.0 in cc)
  IsFree-Finishes (unlock t) s i e next g free =
      let s' : Server P = record s { owner = none; threads = set_thread i t s.threads } in
      step-Finishes {s' = s'} (unlocks e next) (set_thread_other i t s.threads)
        (IsFree-Finishes t s' i e (set_thread_own i t s.threads) g.1 (inl refl))
  IsFree-Finishes (calls m k) s i e next g free =
      called-Finishes s i m k (m s.world).0 (m s.world).1 e next refl (λ a s' e' next' same.
        IsFree-Finishes (k a) s' i e' next'
          (subst (λ o. IsGuarded true (holds o i) (k a)) (sym same) (g.1 a))
          (elim free [ inl none_has ↦ inl (same ∙ none_has) | inr own ↦ inr (same ∙ own) ]))

  owned-Finishes :
      (s : Server P) (i : ℕ) (owner : Option ℕ)
      → IsMutex s
      → s.ended ≡ none
      → s.owner ≡ owner
      → (s' : Server P) × Proceeds s s' × ((s'.ended ≢ none) ⊎ (s'.threads i ≡ over))
  owned-Finishes s i none v e free =
      let (s', r, end) = IsFree-Finishes (s.threads i) s i e refl (v i) (inl free) in
      (s', r, elim end [ inl crashed ↦ inl crashed | inr (e', done, free', rest) ↦ inr done ])
  owned-Finishes s i (some j) v e own =
      let (s1, r1, end1) = IsFree-Finishes (s.threads j) s j e refl (v j) (inr own) in
      elim end1 [
        | inl crashed ↦ (s1, r1, inl crashed)
        | inr (e1, done1, free1, others) ↦ elim (Bool-cases (eqb j i)) [
          | inl same ↦ (s1, r1, inr (subst (λ n. s1.threads n ≡ over) ((eqb_iff j i).0 same) done1))
          | inr away ↦
              let waits : holds s.owner i ≡ false = ap (λ o. holds o i) own ∙ away in
              let g : IsGuarded true (holds s1.owner i) (s.threads i) =
                subst (λ b. IsGuarded true b (s.threads i))
                  (waits ∙ sym (ap (λ o. holds o i) free1)) (v i) in
              let (s2, r2, end2) =
                IsFree-Finishes (s.threads i) s1 i e1 (others i away) g (inl free1) in
              (
                s2,
                Proceeds-Proceeds r1 r2,
                elim end2 [ inl crashed ↦ inl crashed | inr (e2, done, free2, rest) ↦ inr done ],
              )
        ]
      ]

  -- No deadlock: in every state that the threads reach while the process runs, each thread can come
  -- to the end of the event that it handles, without new events, unless an uncaught exception or
  -- undefined behaviour ends the process.
  pub every_handler_can_finish :
      (w : World P) (begun : List (ℕ × Event)) (s : Server P) (i : ℕ)
      → Reaches (idle_server w) begun s
      → s.ended ≡ none
      → (s' : Server P) × Proceeds s s' × ((s'.ended ≢ none) ⊎ (s'.threads i ≡ over))
  every_handler_can_finish w begun s i r e = owned-Finishes s i s.owner (reached-IsMutex r) e refl
