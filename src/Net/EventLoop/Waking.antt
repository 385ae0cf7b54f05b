-- ===== src/Net/EventLoop/Waking.antt =====
-- The functors of a loop over the runs of its thread and the others.
use high_performance_chatser.Prelude.{
  ◌+◌, ◌<◌, ◌≡◌, ◌≢◌, ◌∙◌, ◌⊎◌, inl, inr, refl, sym, ap, true, Bool-cases, List, [], ◌∷◌, ◌++◌,
  append-nil, append_assoc, arith,
}
use high_performance_chatser.Net.EventLoop.{wakeup, handle_read, queue_in_loop}
use high_performance_chatser.Net.EventLoop.Rounds.{
  polling, handling, calling, finished, Running, swap_functors, end_functors, Step, queues, quits,
  wakes, queues_here, quits_here, enters, tests, polled, reads, swaps, calls, ends, Reaches, here,
  then_step,
}

module _ {F : Type 0} where
  abbrev pub IsAwake : Running F → Type 0
  IsAwake s = 0 < s.loop.wakeups + s.wakers

  -- What waits has woken the loop or is about to, unless the loop will look at it without.
  abbrev IsHeard : Running F → Type 0
  IsHeard s =
      (s.phase ≢ handling → s.loop.pending_functors ≢ [] → IsAwake s)
      × (s.phase ≡ polling → s.quit ≡ true → IsAwake s)
      × (s.phase ≡ calling → s.loop.calling_pending_functors ≡ true)

  step-IsHeard : {s t : Running F} {more : List F} → Step s more t → IsHeard s → IsHeard t
  unfolding wakeup handle_read queue_in_loop swap_functors end_functors
  step-IsHeard (queues cb) (p, q, c) = (λ n m. omega arith, λ e f. omega arith, c)
  step-IsHeard quits (p, q, c) = (λ n m. omega arith, λ e f. omega arith, c)
  step-IsHeard (wakes n e) (p, q, c) = (λ k m. omega arith, λ k f. omega arith, c)
  step-IsHeard (queues_here cb (inl e)) (p, q, c) =
      (λ n m. absurd (n e), λ k f. absurd (cc), λ k. absurd (cc))
  step-IsHeard (queues_here cb (inr e)) (p, q, c) =
      (λ n m. rw (c e) (omega arith), λ k f. absurd (cc), λ k. rw (c e) refl)
  step-IsHeard (quits_here (inl e)) (p, q, c) = (p, λ k f. absurd (cc), c)
  step-IsHeard (quits_here (inr e)) (p, q, c) = (p, λ k f. absurd (cc), c)
  step-IsHeard (enters e) (p, q, c) = (λ n m. p (λ h. cc) m, λ k f. absurd (cc), λ k. absurd (cc))
  step-IsHeard {s} (tests e) (p, q, c) = elim (Bool-cases s.quit) [
    | inl stops ↦ (
      λ n m. p (λ h. cc) m,
      λ k f. let k' : finished ≡ polling = rw stops at k in absurd (cc),
      λ k. let k' : finished ≡ calling = rw stops at k in absurd (cc),
    )
    | inr goes ↦ (
      λ n m. p (λ h. cc) m,
      λ k f. absurd (cc),
      λ k. let k' : polling ≡ calling = rw goes at k in absurd (cc),
    )
  ]
  step-IsHeard (polled e) (p, q, c) = (λ n m. absurd (n refl), λ k f. absurd (cc), λ k. absurd (cc))
  step-IsHeard (reads e) (p, q, c) = (λ n m. absurd (n e), λ k f. absurd (cc), c)
  step-IsHeard (swaps e) (p, q, c) = (λ n m. absurd (m refl), λ k f. absurd (cc), λ k. refl)
  step-IsHeard (calls cb rest e f) (p, q, c) = (p, q, c)
  step-IsHeard (ends e f) (p, q, c) = (λ n m. p (λ h. cc) m, λ k f. absurd (cc), λ k. absurd (cc))

  reached-IsHeard : {queued : List F} {s : Running F} → Reaches queued s → IsHeard s
  reached-IsHeard here = (λ n m. absurd (m refl), λ k f. absurd (cc), λ k. absurd (cc))
  reached-IsHeard (then_step r step) = step-IsHeard step (reached-IsHeard r)

  -- No lost wakeup, however the threads run: when the loop's thread is in `poll` and functors wait,
  -- or the loop was told to quit, the counter of the wakeup descriptor is positive, so that `poll`
  -- returns at once, or a thread is about to make it so.
  pub poll_is_woken :
      (queued : List F) (s : Running F)
      → Reaches queued s
      → s.phase ≡ polling
      → (s.loop.pending_functors ≢ []) ⊎ (s.quit ≡ true)
      → IsAwake s
  poll_is_woken queued s r in_poll work =
      let (p, q, c) = reached-IsHeard r in
      elim work [ inl waits ↦ p (λ h. cc) waits | inr stops ↦ q in_poll stops ]

  -- The functors in the order in which they are called.
  abbrev IsInOrder : List F → Running F → Type 0
  IsInOrder queued s =
      (queued ≡ s.loop.called ++ s.functors ++ s.loop.pending_functors)
      × ((s.phase ≡ calling) ⊎ (s.functors ≡ []))

  queued_last :
      (queued called functors pending : List F) (cb : F)
      → queued ≡ called ++ functors ++ pending
      → queued ++ cb ∷ [] ≡ called ++ functors ++ (pending ++ cb ∷ [])
  queued_last queued called functors pending cb e =
      ap (λ x. x ++ cb ∷ []) e ∙ append_assoc (called ++ functors) pending (cb ∷ [])

  step-IsInOrder :
      {s t : Running F} {more queued : List F}
      → Step s more t
      → IsInOrder queued s
      → IsInOrder (queued ++ more) t
  unfolding wakeup handle_read queue_in_loop swap_functors end_functors
  step-IsInOrder {s} {queued = queued} (queues cb) (o, f) =
      (queued_last queued s.loop.called s.functors s.loop.pending_functors cb o, f)
  step-IsInOrder {queued = queued} quits (o, f) = (append-nil queued ∙ o, f)
  step-IsInOrder {queued = queued} (wakes n e) (o, f) = (append-nil queued ∙ o, f)
  step-IsInOrder {s} {queued = queued} (queues_here cb e) (o, f) =
      elim (Bool-cases s.loop.calling_pending_functors) [
        | inl in_round ↦
            rw in_round
              (queued_last queued s.loop.called s.functors s.loop.pending_functors cb o, f)
        | inr quiet ↦
            rw quiet (queued_last queued s.loop.called s.functors s.loop.pending_functors cb o, f)
      ]
  step-IsInOrder {queued = queued} (quits_here e) (o, f) = (append-nil queued ∙ o, f)
  step-IsInOrder {queued = queued} (enters e) (o, f) =
      (append-nil queued ∙ o, inr (elim f [ inl k ↦ absurd (cc) | inr none_left ↦ none_left ]))
  step-IsInOrder {queued = queued} (tests e) (o, f) =
      (append-nil queued ∙ o, inr (elim f [ inl k ↦ absurd (cc) | inr none_left ↦ none_left ]))
  step-IsInOrder {queued = queued} (polled e) (o, f) =
      (append-nil queued ∙ o, inr (elim f [ inl k ↦ absurd (cc) | inr none_left ↦ none_left ]))
  step-IsInOrder {queued = queued} (reads e) (o, f) = (append-nil queued ∙ o, f)
  step-IsInOrder {s} {queued = queued} (swaps e) (o, f) =
      let idle : s.functors ≡ [] = elim f [ inl k ↦ absurd (cc) | inr none_left ↦ none_left ] in
      (
        append-nil queued
            ∙ o
            ∙ ap (λ x. s.loop.called ++ x ++ s.loop.pending_functors) idle
            ∙ ap (λ x. x ++ s.loop.pending_functors) (append-nil s.loop.called)
            ∙ sym (append-nil (s.loop.called ++ s.loop.pending_functors)),
        inl refl,
      )
  step-IsInOrder {s} {queued = queued} (calls cb rest e f) (o, g) = (
    append-nil queued
        ∙ o
        ∙ ap (λ x. s.loop.called ++ x ++ s.loop.pending_functors) f
        ∙ ap (λ x. x ++ s.loop.pending_functors) (sym (append_assoc s.loop.called (cb ∷ []) rest)),
    inl e,
  )
  step-IsInOrder {queued = queued} (ends e f) (o, g) = (append-nil queued ∙ o, inr f)

  reached-IsInOrder : {queued : List F} {s : Running F} → Reaches queued s → IsInOrder queued s
  reached-IsInOrder here = (refl, inr refl)
  reached-IsInOrder (then_step r step) = step-IsInOrder step (reached-IsInOrder r)

  -- However the threads run, the functors that were queued are those called so far, then those that
  -- the present round still has to call, then those that wait: each is called once, in the order in
  -- which they were queued, and none is lost.
  pub called_in_order :
      (queued : List F) (s : Running F)
      → Reaches queued s
      → queued ≡ s.loop.called ++ s.functors ++ s.loop.pending_functors
  called_in_order queued s r = (reached-IsInOrder r).0
