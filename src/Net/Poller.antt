-- ===== src/Net/Poller.antt =====
-- webserver/Poller.h and Poller.cpp, with the calls of EventLoop.h and Channel.cpp that lead there.
-- The kernel's epoll instance is a parameter.
use high_performance_chatser.Prelude.{
  ℕ, ◌*◌, ◌≡◌, ◌∙◌, sym, refl, ap, subst, inl, inr, List, [], ◌∷◌, Option, none, some, arith,
  length, eqb, Map, lookup, assign, erase, nat_eq, if◌then◌else◌, Option-cases,
}
use high_performance_chatser.Net.Channel.{Events}

-- `epoll_ctl` on one epoll instance; `none` is a result below 0.
pub record Epoll : Type 1 where
  pub Set : Type 0
  pub add : ℕ → Events → Set → Option Set
  pub remove : ℕ → Set → Option Set

-- epoll_ctl(2): EPOLL_CTL_ADD fails with EEXIST for a descriptor that was added already.
pub record EpollLaws (E : Epoll) : Type 0 where
  pub add_twice :
      (fd : ℕ) (e f : Events) (s t : E.Set) → E.add fd e s ≡ some t → E.add fd f t ≡ none

-- A `Channel*` is known by its descriptor.
pub record Poller (E : Epoll) : Type 0 where
  pub epoll : E.Set
  pub event_list_size : ℕ
  pub channel_map : Map ℕ ℕ

-- The calls that the program makes: `Channel::update`, `Channel::remove` and a round of the loop.
-- Nothing calls `EventLoop::AddChannel`.
pub data Call : Type 0 where
  updates : ℕ → Events → Call
  removes : ℕ → Call
  polls : List (ℕ × Events) → Call

-- The loop of `poll` over the ready descriptors: those in the map, each with what happened.
unfoldable pub active : Map ℕ ℕ → List (ℕ × Events) → List (ℕ × Events)
unfolding lookup
active m [] = []
active m ((fd, e) ∷ ready) =
    let rest = active m ready in elim (lookup fd m) [ none ↦ rest | some _ ↦ (fd, e) ∷ rest ]

active-empty : (ready : List (ℕ × Events)) → active [] ready ≡ []
unfolding active
active-empty [] = refl
active-empty ((fd, e) ∷ ready) = active-empty ready

-- No list has an item.
abbrev pub AllEmpty : List (List (ℕ × Events)) → Type 0
AllEmpty [] = Unit
AllEmpty (xs ∷ xss) = (xs ≡ []) × AllEmpty xss

module _ {E : Epoll} where
  -- `kInitEventSize`
  unfoldable pub new_poller : E.Set → Poller E
  new_poller s = record { epoll = s; event_list_size = 16; channel_map = [] }

  -- `AddChannel`; `none` is `exit(1)`.
  unfoldable pub add_channel : ℕ → Events → Poller E → Option (Poller E)
  unfolding assign
  add_channel fd e p = elim (E.add fd e p.epoll) [
    | none ↦ none
    | some s ↦ some (record p { epoll = s; channel_map = assign fd fd p.channel_map })
  ]

  unfoldable pub remove_channel : ℕ → Poller E → Option (Poller E)
  unfolding erase
  remove_channel fd p = elim (E.remove fd p.epoll) [
    | none ↦ none
    | some s ↦ some (record p { epoll = s; channel_map = erase fd p.channel_map })
  ]

  -- `UpdateChannel` adds the descriptor too, and leaves the map.
  unfoldable pub update_channel : ℕ → Events → Poller E → Option (Poller E)
  update_channel fd e p = elim (E.add fd e p.epoll) [
    | none ↦ none
    | some s ↦ some (record p { epoll = s })
  ]

  -- `poll`, given what `epoll_wait` returned: the active channels, and a list twice as long for the
  -- next call if it was full.
  unfoldable pub poll : List (ℕ × Events) → Poller E → List (ℕ × Events) × Poller E
  unfolding active
  poll ready p = (
    active p.channel_map ready,
    if eqb (length ready) p.event_list_size
        then record p { event_list_size = p.event_list_size * 2 }
        else p,
  )

  -- One call: the channels that a round makes active, and the poller unless the process has ended.
  unfoldable pub call : Call → Poller E → List (ℕ × Events) × Option (Poller E)
  unfolding update_channel remove_channel poll
  call (updates fd e) p = ([], update_channel fd e p)
  call (removes fd) p = ([], remove_channel fd p)
  call (polls ready) p = let (channels, p') = poll ready p in (channels, some p')

  -- The active channels of every round, until the process ends.
  unfoldable pub run : List Call → Poller E → List (List (ℕ × Events))
  unfolding call
  run [] p = []
  run (c ∷ cs) p = (call c p).0 ∷ elim ((call c p).1) [ none ↦ [] | some p' ↦ run cs p' ]

  call-empty :
      (c : Call) (p : Poller E)
      → p.channel_map ≡ []
      → ((call c p).0 ≡ []) × ((p' : Poller E) → (call c p).1 ≡ some p' → p'.channel_map ≡ [])
  unfolding call erase
  call-empty (updates fd e) p h = (refl, λ p' k. ground arith)
  call-empty (removes fd) p h = (refl, λ p' k. ground (arith, ap (erase fd) h))
  call-empty (polls ready) p h = (rw h (active-empty ready), λ p' k. ground arith)

  run_empty : (cs : List Call) (p : Poller E) → p.channel_map ≡ [] → AllEmpty (run cs p)
  unfolding run
  run_empty [] p h = tt
  run_empty (c ∷ cs) p h =
      let (nothing, later) = call-empty c p h in
      elim (Option-cases (call c p).1) [
        | inl ends ↦ rw ends (nothing, tt)
        | inr (p', goes) ↦ rw goes (nothing, run_empty cs p' (later p' goes))
      ]

-- Whatever channels are updated and removed, and whatever descriptors epoll reports as ready, no
-- round ever makes a channel active: the map that `poll` looks into is filled by `AddChannel` only.
pub never_dispatches :
    (E : Epoll) (s : E.Set) (cs : List Call) → AllEmpty (run {E = E} cs (new_poller s))
unfolding new_poller
never_dispatches E s cs = run_empty cs (new_poller s) refl

-- After an update of a channel that succeeded, an update that follows at once ends the process: it
-- adds the descriptor again, which epoll refuses.
second_update_exits :
    {E : Epoll} (fd : ℕ) (e f : Events) (p q : Poller E)
    → EpollLaws E
    → update_channel fd e p ≡ some q
    → update_channel fd f q ≡ none
unfolding update_channel
second_update_exits {E} fd e f p q laws h = elim (Option-cases (E.add fd e p.epoll)) [
  | inl fails ↦ cc
  | inr (s, adds) ↦
      let found : update_channel fd e p ≡ some (record p { epoll = s }) =
        rw (adds, update_channel) refl in
      let q≡ : record p { epoll = s } ≡ q =
        ap (λ o. elim o [ none ↦ p | some r ↦ r ]) (sym found ∙ h) in
      let refused : update_channel fd f (record p { epoll = s }) ≡ none =
        rw (laws.add_twice fd e f p.epoll s adds, update_channel) refl in
      subst (λ r. update_channel fd f r ≡ none) q≡ refused
]
