-- ===== src/Net/Channel/Lifetime.antt =====
-- The `weak_ptr` of a channel: `Tie` is locked for the time of `HandleEvent`, so that the callbacks
-- find their owner, a `TcpConnection`, alive. They may drop every other pointer to it.
use high_performance_chatser.Prelude.{
  sym, ap, ℕ, ◌≡◌, refl, Bool, true, false, Bool-cases, inl, inr, not, ◌&&◌, ◌||◌, eqb,
  if◌then◌else◌,
}
use high_performance_chatser.Net.Channel.{Events, dispatch, handle_event}

-- The owner of a channel.
pub record Owner : Type 0 where
  pub events : Events  -- of the channel, which the owner holds
  pub pointers : ℕ  -- `shared_ptr`s to the owner, but for the guard
  pub guarded : Bool  -- the guard of `HandleEvent` holds it
  pub used_freed : Bool  -- a callback was called after the owner was destroyed

abbrev pub is_alive : Owner → Bool
is_alive o = o.guarded || not (eqb o.pointers 0)

-- A callback, bound to the bare `this` of the owner. It may change the interest of the channel and
-- copy or drop pointers.
unfoldable pub call_back : (Events → Events) → (ℕ → ℕ) → Owner → Owner
call_back change keep o =
    if is_alive o
    then record o { events = change o.events; pointers = keep o.pointers }
    else record o { used_freed = true }

-- `tie` and the `lock` in `HandleEvent`, which fails when no pointer is left.
unfoldable pub lock_tie : Owner → Owner
lock_tie o = record o { guarded = not (eqb o.pointers 0) }

-- The end of `HandleEvent`.
unfoldable pub drop_guard : Owner → Owner
drop_guard o = record o { guarded = false }

-- What a callback does to the interest and to the pointers.
pub record Deed : Type 0 where
  pub change : Events → Events
  pub keep : ℕ → ℕ

pub record Callbacks : Type 0 where
  pub close : Deed
  pub error : Deed
  pub read : Deed
  pub write : Deed

abbrev pub runs : Deed → Owner → Owner
runs d = call_back d.change d.keep

-- `HandleEvent` of a tied channel.
unfoldable pub handle_tied : Callbacks → Owner → Owner
unfolding lock_tie drop_guard call_back handle_event
handle_tied c o =
    let o' = lock_tie o in
    drop_guard (
      handle_event (λ (o : Owner). o.events) true o'.guarded (runs c.close) (runs c.error)
        (runs c.read) (runs c.write) o')

module _ {S : Type 0} (Q : S → Type 0) where
  kept_if : (b : Bool) (x y : S) → Q x → Q y → Q (if b then x else y)
  kept_if true x y qx qy = qx
  kept_if false x y qx qy = qy

  -- What each callback keeps, the four tests keep.
  dispatch_keeps :
      (events : S → Events) (close error read write : S → S) (s : S)
      → ((t : S) → Q t → Q (close t))
      → ((t : S) → Q t → Q (error t))
      → ((t : S) → Q t → Q (read t))
      → ((t : S) → Q t → Q (write t))
      → Q s
      → Q (dispatch events close error read write s)
  unfolding dispatch
  dispatch_keeps events close error read write s qc qe qr qw q =
      let q1 = kept_if ((events s).hangup && not (events s).input) (close s) s (qc s q) q in
      let s1 = if (events s).hangup && not (events s).input then close s else s in
      let q2 = kept_if (events s1).error (error s1) s1 (qe s1 q1) q1 in
      let s2 = if (events s1).error then error s1 else s1 in
      let q3 = kept_if ((events s2).input || (events s2).priority) (read s2) s2 (qr s2 q2) q2 in
      let s3 = if (events s2).input || (events s2).priority then read s2 else s2 in
      kept_if (events s3).output (write s3) s3 (qw s3 q3) q3

abbrev IsSafe : Owner → Type 0
IsSafe o = (o.guarded ≡ true) × (o.used_freed ≡ false)

runs-IsSafe : (d : Deed) (o : Owner) → IsSafe o → IsSafe (runs d o)
unfolding call_back
runs-IsSafe d o (held, fine) = rw held (refl, fine)

-- Whatever the callbacks of a tied channel do to the pointers to its owner, `HandleEvent` calls none
-- of them after the owner was destroyed; and if the owner was gone before, it calls none at all.
pub tied_owner_lives :
    (c : Callbacks) (o : Owner)
    → o.guarded ≡ false
    → o.used_freed ≡ false
    → ((handle_tied c o).used_freed ≡ false) × (o.pointers ≡ 0 → handle_tied c o ≡ o)
unfolding handle_tied handle_event lock_tie drop_guard
tied_owner_lives c o free fine = (
  elim (Bool-cases (not (eqb o.pointers 0))) [
    | inl held ↦
        let locked : Owner = record o { guarded = true } in
        let safe =
          dispatch_keeps IsSafe (λ (o : Owner). o.events) (runs c.close) (runs c.error)
            (runs c.read) (runs c.write) locked (runs-IsSafe c.close) (runs-IsSafe c.error)
            (runs-IsSafe c.read) (runs-IsSafe c.write) (refl, fine) in
        rw held safe.1
    | inr gone ↦ rw gone fine
  ],
  λ none_left. rw none_left (sym (ap (λ g. record o { pointers = 0; guarded = g }) free)),
)
