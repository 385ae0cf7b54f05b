-- ===== src/Service/Races.antt =====
-- Two logins of one user at the same time. `login` holds no lock between `query` and `updateState`,
-- so a second login may read the row before the first one has marked the user online.
use high_performance_chatser.Prelude.{
  ℤ, ◌≡◌, ◌∙◌, refl, ap, inl, inr, true, false, Bytes, none, some, Bool-cases, Map, lookup, insert,
  lookup-insert, int_eq, bytes_eq, ◌==◌, int_beq_iff, bytes_beq_iff,
}
use high_performance_chatser.Platform.{Platform}
use high_performance_chatser.World.{World, ConnId}
use high_performance_chatser.Model.Types.{User, online}
use high_performance_chatser.Service.Sessions.{login_checked, login_accept}
use high_performance_chatser.Service.Credentials.{Authentic, users_of_accept}

lookup-insert_twice :
    (id : ℤ) (first second : ConnId) (m : Map ℤ ConnId)
    → lookup id m ≡ none
    → lookup id (insert id second (insert id first m)) ≡ some first
lookup-insert_twice id first second m free =
    let same : (id == id) ≡ true = (int_beq_iff id id).1 refl in
    let once : lookup id (insert id first m) ≡ some first =
      lookup-insert id id first m ∙ rw (same, free) refl in
    lookup-insert id id second (insert id first m) ∙ rw (same, once) refl

module _ {P : Platform} where
  pub checked_accepts :
      (conn : ConnId) (id : ℤ) (pwd : Bytes) (user : User) (w : World P)
      → Authentic id pwd user
      → login_checked conn id pwd user w ≡ login_accept conn id user w
  unfolding login_checked
  checked_accepts conn id pwd user w (same, right, fresh) =
      let same_id : (user.id == id) ≡ true = (int_beq_iff user.id id).1 same in
      let same_pwd : (user.password == pwd) ≡ true = (bytes_beq_iff user.password pwd).1 right in
      let away : (user.state == online) ≡ false = elim (Bool-cases (user.state == online)) [
        | inl e ↦ absurd (fresh ((bytes_beq_iff user.state online).0 e))
        | inr e ↦ e
      ] in
      rw (same_id, same_pwd, away)

  -- If two logins with the right password have both read the row of a user who is not online and not
  -- in the map, and then each of them goes on: the second one is accepted as well, but the map keeps
  -- the connection of the first.
  pub late_login_unregistered :
      (first second : ConnId) (id : ℤ) (pwd : Bytes) (user : User) (w : World P)
      → Authentic id pwd user
      → lookup id w.users ≡ none
      → let w' = (login_checked first id pwd user w).1 in
        (login_checked second id pwd user w' ≡ login_accept second id user w')
        × (lookup id (login_checked second id pwd user w').1.users ≡ some first)
  late_login_unregistered first second id pwd user w auth free =
      let w' = (login_checked first id pwd user w).1 in
      let both : (login_checked second id pwd user w').1.users
          ≡ insert id second (insert id first w.users) =
        ap (λ r. r.1.users) (checked_accepts second id pwd user w' auth)
        ∙ users_of_accept second id user w'
        ∙ ap (insert id second) (
            ap (λ r. r.1.users) (checked_accepts first id pwd user w auth)
            ∙ users_of_accept first id user w) in
      (
        checked_accepts second id pwd user w' auth,
        ap (lookup id) both ∙ lookup-insert_twice id first second w.users free,
      )
