-- ===== src/Service/Threads/Entering.antt =====
-- The entries of `UserConnMap` over the runs of all threads.
use high_performance_chatser.Prelude.{
  ℕ, ℤ, ◌≡◌, ◌≢◌, ◌∙◌, ◌⊎◌, inl, inr, refl, sym, subst, ap, Bool-cases, List, [], ◌∷◌, Bytes, some,
  lookup, Result, ok, stop, eqb, eqb_iff, int_eq,
}
use high_performance_chatser.Platform.{Platform}
use high_performance_chatser.World.{World, ConnId, Exec}
use high_performance_chatser.Service.Dispatch.{Event, received}
use high_performance_chatser.Service.Threads.{Thread, over, lock, unlock, calls}
use high_performance_chatser.Service.Threads.Handlers.{thread_of}
use high_performance_chatser.Service.Threads.System.{
  Server, set_thread, idle_server, returns, Step, locks, unlocks, calls_out, Reaches, here, begins,
  then_step,
}
use high_performance_chatser.Service.Threads.Admitted.{
  GivesPassword-grow, Also, GivesPassword, Enters-grow, IsAdmitted, IsAdmitted-grow,
}
use high_performance_chatser.Service.Threads.Admitted.Login.{thread_of-IsAdmitted}

abbrev pub Among : ℕ × Event → List (ℕ × Event) → Type 0
Among b [] = ⊥
Among b (c ∷ cs) = (b ≡ c) ⊎ Among b cs

module _ {P : Platform} where
  -- The worlds that a run has passed.
  abbrev pub Passed :
      {s t : Server P} {begun : List (ℕ × Event)} → Reaches s begun t → World P → Type 0
  Passed {s} here w = w ≡ s.world
  Passed (begins i event r e done) w = Passed r w
  Passed (then_step {u = u} i r step) w = Passed r w ⊎ (w ≡ u.world)

  -- A thread has begun to handle a login for `id` on the connection that gave the password.
  abbrev pub HasLoggedIn : (World P → Type 0) → List (ℕ × Event) → ℤ → ConnId → Type 0
  HasLoggedIn worlds begun id conn =
      (i : ℕ) × (text : Bytes) × Among (i, received conn text) begun × GivesPassword worlds text id

  abbrev IsFounded : World P → (World P → Type 0) → List (ℕ × Event) → Server P → Type 1
  IsFounded start worlds begun s =
      ((j : ℕ)
        → (s.threads j ≡ over)
          ⊎ ((event : Event) × Among (j, event) begun × IsAdmitted event worlds (s.threads j)))
      × ((id : ℤ) (conn : ConnId)
          → lookup id s.world.users ≡ some conn
          → (lookup id start.users ≡ some conn) ⊎ HasLoggedIn worlds begun id conn)

  -- More worlds and more events.
  grow-IsFounded :
      (start : World P) (F G : World P → Type 0) (begun more : List (ℕ × Event)) (s : Server P)
      → ((w : World P) → F w → G w)
      → ((b : ℕ × Event) → Among b begun → Among b more)
      → IsFounded start F begun s
      → IsFounded start G more s
  grow-IsFounded start F G begun more s worlds events (threads, entries) = (
    λ j. elim (threads j) [
      | inl idle ↦ inl idle
      | inr (event, among, fine) ↦
          inr (event, events (j, event) among, IsAdmitted-grow event (s.threads j) F G worlds fine)
    ],
    λ id conn e. elim (entries id conn e) [
      | inl old ↦ inl old
      | inr (i, text, among, gives) ↦
          inr
            (i, text, events (i, received conn text) among, GivesPassword-grow text id worlds gives)
    ],
  )

  -- A change of one thread, whose event stays the same.
  set_thread-IsFounded :
      (start : World P) (F : World P → Type 0) (begun : List (ℕ × Event)) (s : Server P) (i : ℕ)
      (t : Thread P) (event : Event)
      → Among (i, event) begun
      → IsAdmitted event F t
      → ((j : ℕ)
          → (s.threads j ≡ over)
            ⊎ ((event : Event) × Among (j, event) begun × IsAdmitted event F (s.threads j)))
      → (j : ℕ)
      → (set_thread i t s.threads j ≡ over)
        ⊎ ((event : Event) × Among (j, event) begun
            × IsAdmitted event F (set_thread i t s.threads j))
  set_thread-IsFounded start F begun s i t event among fine threads j =
      elim (Bool-cases (eqb i j)) [
        | inl same ↦
            rw same
              (inr (event, subst (λ j. Among (j, event) begun) ((eqb_iff i j).0 same) among, fine))
        | inr away ↦ rw away (threads j)
      ]

  -- What the event of a thread is, when the thread is not over.
  running :
      (F : World P → Type 0) (begun : List (ℕ × Event)) (i : ℕ) (t next : Thread P)
      → t ≡ next
      → next ≢ over
      → (t ≡ over) ⊎ ((event : Event) × Among (i, event) begun × IsAdmitted event F t)
      → (event : Event) × Among (i, event) begun × IsAdmitted event F next
  running F begun i t next e not_over (inl idle) = absurd (not_over (sym e ∙ idle))
  running F begun i t next e not_over (inr (event, among, fine)) =
      (event, among, subst (IsAdmitted event F) e fine)

  returned-IsFounded :
      {A : Type 0} (start : World P) (F : World P → Type 0) (begun : List (ℕ × Event))
      (s : Server P) (i : ℕ) (k : A → Thread P) (event : Event) (r : Result A) (w : World P)
      → Among (i, event) begun
      → ((a : A) → r ≡ ok a → IsAdmitted event F (k a))
      → ((j : ℕ)
          → (s.threads j ≡ over)
            ⊎ ((event : Event) × Among (j, event) begun × IsAdmitted event F (s.threads j)))
      → ((id : ℤ) (conn : ConnId)
          → lookup id w.users ≡ some conn
          → (lookup id start.users ≡ some conn) ⊎ HasLoggedIn F begun id conn)
      → IsFounded start F begun (returns i k (r, w) s)
  unfolding returns
  returned-IsFounded start F begun s i k event (ok a) w among rest threads entries =
      (set_thread-IsFounded start F begun s i (k a) event among (rest a refl) threads, entries)
  returned-IsFounded start F begun s i k event (stop e) w among rest threads entries =
      (threads, entries)

  called-IsFounded :
      {A : Type 0} (start : World P) (F : World P → Type 0) (begun : List (ℕ × Event))
      (s : Server P) (i : ℕ) (m : Exec P A) (k : A → Thread P) (event : Event) (r : Result A)
      (w : World P)
      → m s.world ≡ (r, w)
      → F s.world
      → Among (i, event) begun
      → IsAdmitted event F (calls m k)
      → IsFounded start F begun s
      → IsFounded start F begun (returns i k (r, w) s)
  called-IsFounded {A} start F begun s i m k event r w result seen among fine (threads, entries) =
      let now : (v : World P) → Also F s.world v → F v =
        λ v h. elim h [ inl f ↦ f | inr e ↦ subst F (sym e) seen ] in
      let entries' : (id : ℤ) (conn : ConnId)
          → lookup id w.users ≡ some conn
          → (lookup id start.users ≡ some conn) ⊎ HasLoggedIn F begun id conn =
        λ id conn e.
          elim ((fine s.world).0 id conn
            (ap (λ (x : Result A × World P). lookup id x.1.users) result ∙ e)) [
              | inl old ↦ entries id conn old
              | inr enters ↦
                  let (text, is_login, gives) = Enters-grow event id conn now enters in
                  inr (i, text, subst (λ ev. Among (i, ev) begun) is_login among, gives)
            ] in
      let rest : (a : A) → r ≡ ok a → IsAdmitted event F (k a) = λ a e.
        IsAdmitted-grow event (k a) (Also F s.world) F now
          ((fine s.world).1 a (ap (λ x. x.0) result ∙ e)) in
      returned-IsFounded start F begun s i k event r w among rest threads entries'

  step-IsFounded :
      (start : World P) (F : World P → Type 0) (begun : List (ℕ × Event)) {s : Server P} (i : ℕ)
      {s' : Server P}
      → Step s i s'
      → F s.world
      → IsFounded start F begun s
      → IsFounded start F begun s'
  step-IsFounded start F begun {s} i (locks {t} e next free) seen (threads, entries) =
      let (event, among, fine) =
        running F begun i (s.threads i) (lock t) next (λ h. cc) (threads i) in
      (set_thread-IsFounded start F begun s i t event among fine threads, entries)
  step-IsFounded start F begun {s} i (unlocks {t} e next) seen (threads, entries) =
      let (event, among, fine) =
        running F begun i (s.threads i) (unlock t) next (λ h. cc) (threads i) in
      (set_thread-IsFounded start F begun s i t event among fine threads, entries)
  step-IsFounded start F begun {s} i (calls_out {m = m} {k} e next) seen (threads, entries) =
      let (event, among, fine) =
        running F begun i (s.threads i) (calls m k) next (λ h. cc) (threads i) in
      called-IsFounded start F begun s i m k event (m s.world).0 (m s.world).1 refl seen among fine
        (threads, entries)

  now-Passed :
      {s t : Server P} {begun : List (ℕ × Event)} (r : Reaches s begun t) → Passed r t.world
  now-Passed here = refl
  now-Passed (begins i event r e done) = now-Passed r
  now-Passed (then_step i r step) = inr refl

  reached-IsFounded :
      {w : World P} {begun : List (ℕ × Event)} {s : Server P} (r : Reaches (idle_server w) begun s)
      → IsFounded w (Passed r) begun s
  reached-IsFounded here = (λ j. inl refl, λ id conn e. inl e)
  reached-IsFounded {w} (begins {t} {begun} i event r e done) =
      let (threads, entries) =
        grow-IsFounded w (Passed r) (Passed r) begun ((i, event) ∷ begun) t (λ w p. p)
          (λ b among. inr among) (reached-IsFounded r) in
      (
        set_thread-IsFounded w (Passed r) ((i, event) ∷ begun) t i (thread_of event) event
            (inl refl) (thread_of-IsAdmitted (Passed r) event) threads,
        entries,
      )
  reached-IsFounded {w} (then_step {t} {u} {begun} i r step) =
      grow-IsFounded w (Passed r) (λ v. Passed r v ⊎ (v ≡ u.world)) begun begun u (λ w p. inl p)
        (λ b among. among)
        (step-IsFounded w (Passed r) begun i step (now-Passed r) (reached-IsFounded r))

  -- However the threads run: an entry of the map was there at first, or a thread has begun to handle
  -- a login for its number on its connection, with the password and the number of the user that
  -- `UserModel::query` answers for this number in a world that the run has passed, not marked online.
  -- Without a row this user is `User()`, with the number -1 and the empty password.
  pub entries_have_logged_in :
      (w : World P) (begun : List (ℕ × Event)) (s : Server P) (r : Reaches (idle_server w) begun s)
      (id : ℤ) (conn : ConnId)
      → lookup id s.world.users ≡ some conn
      → (lookup id w.users ≡ some conn) ⊎ HasLoggedIn (Passed r) begun id conn
  entries_have_logged_in w begun s r id conn e = (reached-IsFounded r).1 id conn e
