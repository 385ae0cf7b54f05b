-- ===== src/Service/Threads/Locking.antt =====
-- `ConnMutex` over the runs of all threads: who holds it, and who touches the map.
use high_performance_chatser.Prelude.{
  ℕ, ◌≡◌, ◌∙◌, ◌⊎◌, inl, inr, refl, sym, subst, ap, Bool, true, false, List, Option, none, some,
  Result, ok, stop, Bool-cases, eqb, eqb_iff,
}
use high_performance_chatser.Platform.{Platform}
use high_performance_chatser.World.{World, Exec}
use high_performance_chatser.World.Framed.{Framed}
use high_performance_chatser.Service.Dispatch.{Event}
use high_performance_chatser.Service.Threads.{Thread, calls}
use high_performance_chatser.Service.Threads.Handlers.{thread_of}
use high_performance_chatser.Service.Threads.Guarded.{IsGuarded}
use high_performance_chatser.Service.Threads.Guarded.Handling.{thread_of-IsGuarded}
use high_performance_chatser.Service.Threads.System.{
  Server, set_thread, idle_server, returns, Step, locks, unlocks, calls_out, Reaches, here, begins,
  then_step,
}

abbrev pub holds : Option ℕ → ℕ → Bool
holds none j = false
holds (some i) j = eqb i j

pub holds_own : (i : ℕ) → holds (some i) i ≡ true
holds_own i = (eqb_iff i i).1 refl

pub holds-owner : (owner : Option ℕ) (i : ℕ) → holds owner i ≡ true → owner ≡ some i
holds-owner none i h = cc
holds-owner (some j) i h = ap some ((eqb_iff j i).0 h)

module _ {P : Platform} where
  abbrev pub IsMutex : Server P → Type 0
  IsMutex s = (j : ℕ) → IsGuarded true (holds s.owner j) (s.threads j)

  -- A change of one thread, if the others see the mutex as before.
  set_thread-IsMutex :
      (s : Server P) (i : ℕ) (t : Thread P) (owner : Option ℕ)
      → IsMutex s
      → IsGuarded true (holds owner i) t
      → ((j : ℕ) → eqb i j ≡ false → holds owner j ≡ holds s.owner j)
      → (j : ℕ) → IsGuarded true (holds owner j) (set_thread i t s.threads j)
  set_thread-IsMutex s i t owner v g other j = elim (Bool-cases (eqb i j)) [
    | inl same ↦ rw same (subst (λ j. IsGuarded true (holds owner j) t) ((eqb_iff i j).0 same) g)
    | inr away ↦ rw away (subst (λ b. IsGuarded true b (s.threads j)) (sym (other j away)) (v j))
  ]

  returned-IsMutex :
      {A : Type 0} (s : Server P) (i : ℕ) (k : A → Thread P) (r : Result A) (w : World P)
      → IsMutex s
      → ((a : A) → IsGuarded true (holds s.owner i) (k a))
      → IsMutex (returns i k (r, w) s)
  unfolding returns
  returned-IsMutex s i k (ok a) w v g = set_thread-IsMutex s i (k a) s.owner v (g a) (λ j e. refl)
  returned-IsMutex s i k (stop e) w v g = v

  step-IsMutex : {s : Server P} (i : ℕ) {s' : Server P} → Step s i s' → IsMutex s → IsMutex s'
  step-IsMutex {s} i (locks {t} e next free) v =
      let g = subst (IsGuarded true (holds s.owner i)) next (v i) in
      set_thread-IsMutex s i t (some i) v (subst (λ b. IsGuarded true b t) (sym (holds_own i)) g.1)
        (λ j away. away ∙ ap (λ o. holds o j) (sym free))
  step-IsMutex {s} i (unlocks {t} e next) v =
      let g = subst (IsGuarded true (holds s.owner i)) next (v i) in
      set_thread-IsMutex s i t none v g.1
        (λ j away. sym (ap (λ o. holds o j) (holds-owner s.owner i g.0) ∙ away))
  step-IsMutex {s} i (calls_out {m = m} {k} e next) v =
      let g = subst (IsGuarded true (holds s.owner i)) next (v i) in
      returned-IsMutex s i k (m s.world).0 (m s.world).1 v g.1

  pub reached-IsMutex :
      {w : World P} {begun : List (ℕ × Event)} {s : Server P}
      → Reaches (idle_server w) begun s
      → IsMutex s
  reached-IsMutex here = λ j. refl
  reached-IsMutex (begins {t} i event r e done) =
      let v = reached-IsMutex r in
      let idle : holds t.owner i ≡ false = subst (IsGuarded true (holds t.owner i)) done (v i) in
      set_thread-IsMutex t i (thread_of event) t.owner v
        (subst (λ b. IsGuarded true b (thread_of {P = P} event)) (sym idle)
          (thread_of-IsGuarded P event))
        (λ j e. refl)
  reached-IsMutex (then_step i r step) = step-IsMutex i step (reached-IsMutex r)

  -- No data race on `UserConnMap`: however the threads run, one that is about to make a call which
  -- has to do with the map holds `ConnMutex`.
  pub map_guarded :
      {A : Type 0} (w : World P) (begun : List (ℕ × Event)) (s : Server P) (i : ℕ) (m : Exec P A)
      (k : A → Thread P)
      → Reaches (idle_server w) begun s
      → s.threads i ≡ calls m k
      → (s.owner ≡ some i) ⊎ Framed m
  map_guarded w begun s i m k r next =
      elim (subst (IsGuarded true (holds s.owner i)) next (reached-IsMutex r i)).0 [
        | inl framed ↦ inr framed
        | inr (held, _) ↦ inl (holds-owner s.owner i held)
      ]
