-- ===== src/Service/Registry.antt =====
-- `UserConnMap`: what it always satisfies, who changes it, and what a closed connection leaves in it.
use high_performance_chatser.Prelude.{
  ℤ, ◌≡◌, ◌≢◌, sym, subst, refl, ◌⊎◌, inl, inr, List, [], ◌∷◌, some, none, arith, Bool-cases,
  Option-cases, Map, lookup, erase, lookup-erase, UniqueKeys, erase-UniqueKeys, insert-UniqueKeys,
  int_eq, nat_eq, bytes_eq, ◌==◌, int_beq_iff, eqb_iff,
}
use high_performance_chatser.Platform.{Platform}
use high_performance_chatser.World.{World, ConnId, ◌>>=◌}
use high_performance_chatser.Model.Types.{User, default_user}
use high_performance_chatser.Service.Sessions.{first_key, forget_connection, client_close_exception}
use high_performance_chatser.Service.Dispatch.{run, Event}
use high_performance_chatser.Service.Keeps.{users_stable, run-Keeps, close_finish-Keeps}

-- The two ways in which `clientCloseException` searches.
abbrev Forgets : ConnId → Map ℤ ConnId → User × Map ℤ ConnId → Type 0
Forgets conn m r =
    ((first_key conn m ≡ none) × (r ≡ (default_user, m)))
    ⊎ ((id : ℤ) × (first_key conn m ≡ some id)
        × (r ≡ (record default_user { id = id }, erase id m)))

forget_cases : (conn : ConnId) (m : Map ℤ ConnId) → Forgets conn m (forget_connection conn m)
unfolding forget_connection
forget_cases conn m = elim (Option-cases (first_key conn m)) [
  | inl e ↦ inl (e, rw (e, forget_connection))
  | inr (id, e) ↦ inr (id, e, rw (e, forget_connection))
]

pub forget-UniqueKeys :
    (conn : ConnId) (m : Map ℤ ConnId) → UniqueKeys m → UniqueKeys (forget_connection conn m).1
forget-UniqueKeys conn m u = elim (forget_cases conn m) [
  | inl (_, e) ↦ subst (λ r. UniqueKeys r.1) (sym e) u
  | inr (id, _, e) ↦ subst (λ r. UniqueKeys r.1) (sym e) (erase-UniqueKeys id m u)
]

pub forget_connection_no_more :
    (conn : ConnId) (m : Map ℤ ConnId) (id : ℤ) (c : ConnId)
    → lookup id (forget_connection conn m).1 ≡ some c
    → lookup id m ≡ some c
forget_connection_no_more conn m id c h = elim (forget_cases conn m) [
  | inl (_, e) ↦ rw e at h
  | inr (j, _, e) ↦
      let h' : lookup id (erase j m) ≡ some c = rw e at h in
      let gone = lookup-erase j id m in ground (arith, gone, h')
]

-- Whatever the server is sent, in whatever order: if no user has two entries in the map at first,
-- none has afterwards.
run-UniqueKeys :
    {P : Platform} (events : List Event) (w : World P)
    → UniqueKeys w.users
    → UniqueKeys (run events w).1.users
run-UniqueKeys events w u =
    (run-Keeps (users_stable UniqueKeys) (λ id conn w h. insert-UniqueKeys id conn w.users h)
        (λ id w h. erase-UniqueKeys id w.users h) (λ conn w h. forget-UniqueKeys conn w.users h)
        events).at
      w u

pub first_key-none :
    (conn : ConnId) (m : Map ℤ ConnId)
    → first_key conn m ≡ none
    → (id : ℤ) → lookup id m ≢ some conn
unfolding first_key lookup
first_key-none conn [] e id h = cc
first_key-none conn ((j, c) ∷ m) e id h =
    ground (arith, λ (p : first_key conn m ≡ none). first_key-none conn m p id, eqb_iff c conn)

pub first_key-some :
    (conn : ConnId) (m : Map ℤ ConnId) (id : ℤ)
    → UniqueKeys m
    → first_key conn m ≡ some id
    → lookup id m ≡ some conn
unfolding first_key lookup
first_key-some conn [] id u e = cc
first_key-some conn ((j, c) ∷ m) id u e =
    ground (arith, first_key-some conn m id u.1, eqb_iff c conn, int_beq_iff j id)

-- No other user has the connection.
abbrev pub OneUser : ConnId → Map ℤ ConnId → Type 0
OneUser conn m = (i j : ℤ) → lookup i m ≡ some conn → lookup j m ≡ some conn → i ≡ j

abbrev pub after_close : {P : Platform} → ConnId → World P → Map ℤ ConnId
after_close conn w = (client_close_exception conn w).1.users

users_of_close :
    {P : Platform} (conn : ConnId) (w : World P)
    → after_close conn w ≡ (forget_connection conn w.users).1
unfolding client_close_exception ◌>>=◌
users_of_close {P} conn w =
    let (user, users) = forget_connection conn w.users in
    (close_finish-Keeps {P = P} (users_stable (λ m. m ≡ users)) user).at
      (record w { users = users }) refl

-- A closed connection that one user has is in no entry of the map afterwards, and the entries of
-- the other connections stay.
pub close_forgets :
    {P : Platform} (conn : ConnId) (w : World P)
    → UniqueKeys w.users
    → OneUser conn w.users
    → ((id : ℤ) → lookup id (after_close conn w) ≢ some conn)
      × ((id : ℤ) (c : ConnId)
          → c ≢ conn
          → lookup id w.users ≡ some c
          → lookup id (after_close conn w) ≡ some c)
close_forgets conn w u one = rw (users_of_close conn w) (elim (forget_cases conn w.users) [
  | inl (e, r) ↦ rw r (first_key-none conn w.users e, λ id c ne h. h)
  | inr (id, e, r) ↦ rw r (
    (λ j h.
        let old = lookup-erase id j w.users in
        ground (arith, old, int_beq_iff id j, one id j (first_key-some conn w.users id u e))),
    λ j c ne h.
        ground
          (arith, lookup-erase id j w.users, int_beq_iff id j, first_key-some conn w.users id u e),
  )
])

-- A connection under which two users have logged in stays in the map after it was closed.
pub close_leaves_second_user :
    {P : Platform} (conn : ConnId) (w : World P) (i j : ℤ)
    → i ≢ j
    → lookup i w.users ≡ some conn
    → lookup j w.users ≡ some conn
    → (k : ℤ) × (lookup k (after_close conn w) ≡ some conn)
close_leaves_second_user conn w i j ne hi hj =
    rw (users_of_close conn w) (elim (forget_cases conn w.users) [
      | inl (e, r) ↦ rw r (i, hi)
      | inr (id, e, r) ↦ rw r (elim (Bool-cases (id == i)) [
        | inl here ↦
            (j, ground (arith, lookup-erase id j w.users, int_beq_iff id j, int_beq_iff id i))
        | inr away ↦ (i, ground (arith, lookup-erase id i w.users))
      ])
    ])
