-- ===== src/Service/Threads/Guarded.antt =====
-- What it takes that a thread uses `ConnMutex` as it should, by the ways to build a thread.
pub mod Handling
use high_performance_chatser.Prelude.{
  UniqueKeys, lookup-erase, erase-UniqueKeys, lookup, erase, insert, int_eq, arith, ℤ, ◌≡◌, ◌⊎◌,
  inl, inr, refl, Bool, true, false, List, [], ◌∷◌, Bytes, Option, none, some, if◌then◌else◌,
}
use high_performance_chatser.Platform.{Platform}
use high_performance_chatser.World
use high_performance_chatser.World.{get_users, World, ConnId, Exec}
use high_performance_chatser.World.Framed.{Framed, framed_rules}
use high_performance_chatser.Service.Threads.{
  change_users, Thread, over, lock, unlock, calls, Part, pure, call, ◌>>=◌, locked,
}
use high_performance_chatser.Model.Types.{User}
use high_performance_chatser.Model.Framed.{
  user_query-Framed, user_insert-Framed, update_state-Framed, friend_insert-Framed,
  friend_query-Framed, offline_insert-Framed, offline_remove-Framed, offline_query-Framed,
  create_group-Framed, add_group-Framed, query_groups-Framed, query_group_users-Framed,
}
use high_performance_chatser.Service.Messages.{
  Handler, login_h, loginout_h, reg_h, one_chat_h, add_friend_h, create_group_h, add_group_h,
  group_chat_h,
}
use high_performance_chatser.Service.Sessions.{with_offline, forget_connection}
use high_performance_chatser.Service.Registry.{forget-UniqueKeys, forget_connection_no_more}
use high_performance_chatser.Service.Dispatch.{Event, received, closed, notified}
use high_performance_chatser.Service.Threads.Handlers.{
  greet, accept, check, login, loginout, reg, after_close, client_close_exception, deliver_away,
  deliver, send_here, one_chat, deliver_all, group_chat, deliver_notified,
  handle_redis_subscribe_message, add_friend, create_group, add_group, run_handler, on_message,
  handle, thread_of,
}

-- After `m` the map has no entry that it did not have before.
pub record Shrinks {P : Platform} {A : Type 0} (m : Exec P A) : Type 0 where
  pub no_more :
      (w : World P) (id : ℤ) (conn : ConnId)
      → lookup id (m w).1.users ≡ some conn
      → lookup id w.users ≡ some conn
  pub unique : (w : World P) → UniqueKeys w.users → UniqueKeys (m w).1.users

module _ {P : Platform} where
  -- `m` inserts an entry and does nothing else to the map.
  abbrev pub Adds : {A : Type 0} → Exec P A → Type 0
  Adds m = (id : ℤ) × (conn : ConnId) × ((w : World P) → (m w).1.users ≡ insert id conn w.users)

  -- A thread that does or does not hold the mutex, and may or may not insert an entry, goes on as it
  -- should: it locks the mutex when it has not, unlocks it when it has, is over without it, and
  -- touches the map with it only.
  abbrev pub IsGuarded : Bool → Bool → Thread P → Type 0
  IsGuarded adds held over = held ≡ false
  IsGuarded adds held (lock t) = (held ≡ false) × IsGuarded adds true t
  IsGuarded adds held (unlock t) = (held ≡ true) × IsGuarded adds false t
  IsGuarded adds held (calls {A} m k) =
      (Framed m ⊎ ((held ≡ true) × (Shrinks m ⊎ ((adds ≡ true) × Adds m))))
      × ((a : A) → IsGuarded adds held (k a))

-- A part of a handler that may be followed by all that goes on as it should.
pub record Guards {P : Platform} {A : Type 0} (adds held : Bool) (p : Part P A) : Type 1 where
  pub guards :
      (k : A → Thread P) → ((a : A) → IsGuarded adds held (k a)) → IsGuarded adds held (p k)

module _ {P : Platform} {A : Type 0} {adds : Bool} where
  pub Guards-pure : {held : Bool} (a : A) → Guards adds held (pure {P = P} a)
  Guards-pure a = record { guards = λ k h. h a }

  pub Guards-if :
      {held : Bool} (b : Bool) (p q : Part P A)
      → Guards adds held p
      → Guards adds held q
      → Guards adds held (if b then p else q)
  Guards-if true p q gp gq = gp
  Guards-if false p q gp gq = gq

  -- A call that has nothing to do with the map, and any call under the lock.
  pub Guards-call : {held : Bool} (m : Exec P A) → Framed m → Guards adds held (call m)
  Guards-call m f = record { guards = λ k h. (inl f, h) }

  pub Guards-held : (m : Exec P A) → Shrinks m → Guards adds true (call m)
  Guards-held m less = record { guards = λ k h. (inr (refl, inl less), h) }

  pub Guards-locked : (p : Part P A) → Guards adds true p → Guards adds false (locked p)
  unfolding locked
  Guards-locked p g = record {
    guards = λ k h. (refl, g.guards (λ a. unlock (k a)) (λ a. (refl, h a)));
  }

module _ {P : Platform} {A B : Type 0} {adds : Bool} where
  pub Guards-bind :
      {held : Bool} (p : Part P A) (f : A → Part P B)
      → Guards adds held p
      → ((a : A) → Guards adds held (f a))
      → Guards adds held (p >>= f)
  unfolding ◌>>=◌
  Guards-bind p f gp gf = record { guards = λ k h. gp.guards (λ a. f a k) (λ a. (gf a).guards k h) }

module _ {P : Platform} where
  pub Shrinks-get_users : Shrinks (get_users {P = P})
  unfolding get_users
  Shrinks-get_users = record { no_more = λ w id conn h. h; unique = λ w u. u }

  pub Shrinks-erase : (id : ℤ) → Shrinks (change_users {P = P} (erase id))
  unfolding change_users World.◌>>=◌
  Shrinks-erase id = record {
    no_more = λ w j conn h. let e = lookup-erase id j w.users in ground (arith, e);
    unique = λ w u. erase-UniqueKeys id w.users u;
  }

  pub Shrinks-forget :
      (conn : ConnId) → Shrinks (change_users {P = P} (λ m. (forget_connection conn m).1))
  unfolding change_users World.◌>>=◌
  Shrinks-forget conn = record {
    no_more = λ w j c h. forget_connection_no_more conn w.users j c h;
    unique = λ w u. forget-UniqueKeys conn w.users u;
  }

  pub Guards-insert :
      (id : ℤ) (conn : ConnId) → Guards true true (call (change_users {P = P} (insert id conn)))
  unfolding change_users World.◌>>=◌
  Guards-insert id conn = record {
    guards = λ k h. (inr (refl, inr (refl, (id, conn, λ w. refl))), h);
  }

pub ruleset guards_rules = (framed_rules, Guards-pure, Guards-if, Guards-call, Guards-bind)

pub ruleset held_rules =
    (Guards-locked, Guards-held, Shrinks-get_users, Shrinks-erase, Shrinks-forget)
