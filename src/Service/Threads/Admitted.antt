-- ===== src/Service/Threads/Admitted.antt =====
-- What a thread may insert into `UserConnMap`: the entry of a login that has given its password.
pub mod Login
use high_performance_chatser.Prelude.{
  ◌&&◌, ℤ, ◌≡◌, ◌∙◌, ◌⊎◌, inl, inr, refl, sym, subst, ap, Bool, true, false, Bool-cases, Bytes,
  codes, Option, none, some, Option-cases, lookup, lookup-insert, ok, if◌then◌else◌, ◌==◌, int_eq,
  bytes_eq, int_beq_iff, bytes_beq_iff, arith,
}
use high_performance_chatser.Platform.{Platform}
use high_performance_chatser.World
use high_performance_chatser.World.{World, ConnId, Exec, or_throw}
use high_performance_chatser.World.Framed.{Framed-emit, Framed-or_throw, Framed, users_of_Framed}
use high_performance_chatser.Model.Types.{User, online}
use high_performance_chatser.Model.UserModel
use high_performance_chatser.Model.Framed.{user_query-Framed}
use high_performance_chatser.Service.Messages.{Handler, login_h, get_handler}
use high_performance_chatser.Service.Credentials.{Authentic}
use high_performance_chatser.Service.Dispatch.{Event, received, closed, notified}
use high_performance_chatser.Service.Threads.{
  call, Part, Thread, over, lock, unlock, calls, change_users, ◌>>=◌, locked,
}
use high_performance_chatser.Service.Threads.Handlers.{
  login, check, accept, greet, run_handler, on_message, handle, thread_of,
}
use high_performance_chatser.Service.Threads.Guarded.{Guards, IsGuarded}

module _ {P : Platform} where
  -- The worlds of `worlds`, and `w`.
  abbrev pub Also : (World P → Type 0) → World P → World P → Type 0
  Also worlds w v = worlds v ⊎ (v ≡ w)

  -- The text is a login for the number `id` with the password and the number of the user that
  -- `UserModel::query` answers in one of the worlds, who is not marked online.
  abbrev pub GivesPassword : (World P → Type 0) → Bytes → ℤ → Type 0
  GivesPassword worlds text id =
      (js : P.Json) × (msgid : ℤ) × (pwd : Bytes) × (user : User) × (w : World P) × (P.parse text
        ≡ some js)
      × (P.get_int js (codes "msgid") ≡ some msgid)
      × (get_handler msgid ≡ some login_h)
      × (P.get_int js (codes "id") ≡ some id)
      × (P.get_string js (codes "password") ≡ some pwd)
      × worlds w
      × ((UserModel.query id w).0 ≡ ok user)
      × Authentic id pwd user

  -- The event may enter `id` with the connection `conn` into the map.
  abbrev pub Enters : (World P → Type 0) → Event → ℤ → ConnId → Type 0
  Enters worlds event id conn =
      (text : Bytes) × (event ≡ received conn text) × GivesPassword worlds text id

  -- Whatever the other threads do between its calls, the thread inserts only what its event may
  -- enter. `worlds` are the worlds before the calls so far.
  abbrev pub IsAdmitted : Event → (World P → Type 0) → Thread P → Type 0
  IsAdmitted event worlds over = Unit
  IsAdmitted event worlds (lock t) = IsAdmitted event worlds t
  IsAdmitted event worlds (unlock t) = IsAdmitted event worlds t
  IsAdmitted event worlds (calls {A} m k) =
      (w : World P)
      → ((id : ℤ) (conn : ConnId)
          → lookup id (m w).1.users ≡ some conn
          → (lookup id w.users ≡ some conn) ⊎ Enters (Also worlds w) event id conn)
        × ((a : A) → (m w).0 ≡ ok a → IsAdmitted event (Also worlds w) (k a))

  pub GivesPassword-grow :
      {F G : World P → Type 0} (text : Bytes) (id : ℤ)
      → ((w : World P) → F w → G w)
      → GivesPassword F text id
      → GivesPassword G text id
  GivesPassword-grow text id grow (js, msgid, pwd, user, w, p, g, h, i, s, f, q, a) =
      (js, msgid, pwd, user, w, p, g, h, i, s, grow w f, q, a)

  pub Enters-grow :
      {F G : World P → Type 0} (event : Event) (id : ℤ) (conn : ConnId)
      → ((w : World P) → F w → G w)
      → Enters F event id conn
      → Enters G event id conn
  Enters-grow event id conn grow (text, e, gives) = (text, e, GivesPassword-grow text id grow gives)

  Also-grow :
      {F G : World P → Type 0} (w : World P)
      → ((v : World P) → F v → G v)
      → (v : World P) → Also F w v
      → Also G w v
  Also-grow w grow v (inl f) = inl (grow v f)
  Also-grow w grow v (inr e) = inr e

  pub IsAdmitted-grow :
      (event : Event) (t : Thread P) (F G : World P → Type 0)
      → ((w : World P) → F w → G w)
      → IsAdmitted event F t
      → IsAdmitted event G t
  IsAdmitted-grow event over F G grow h = tt
  IsAdmitted-grow event (lock t) F G grow h = IsAdmitted-grow event t F G grow h
  IsAdmitted-grow event (unlock t) F G grow h = IsAdmitted-grow event t F G grow h
  IsAdmitted-grow event (calls m k) F G grow h = λ w. (
    λ id conn e. elim ((h w).0 id conn e) [
      | inl old ↦ inl old
      | inr new ↦ inr (Enters-grow event id conn (Also-grow w grow) new)
    ],
    λ a e. IsAdmitted-grow event (k a) (Also F w) (Also G w) (Also-grow w grow) ((h w).1 a e),
  )

  -- A thread that inserts nothing.
  pub IsGuarded-IsAdmitted :
      (event : Event) (F : World P → Type 0) (held : Bool) (t : Thread P)
      → IsGuarded false held t
      → IsAdmitted event F t
  IsGuarded-IsAdmitted event F held over g = tt
  IsGuarded-IsAdmitted event F held (lock t) g = IsGuarded-IsAdmitted event F true t g.1
  IsGuarded-IsAdmitted event F held (unlock t) g = IsGuarded-IsAdmitted event F false t g.1
  IsGuarded-IsAdmitted event F held (calls m k) g = λ w. (
    λ id conn e. elim g.0 [
      | inl framed ↦ inl (ap (lookup id) (sym (users_of_Framed m framed w)) ∙ e)
      | inr (_, inl less) ↦ inl (less.no_more w id conn e)
      | inr (_, inr (adds, _)) ↦ absurd (cc)
    ],
    λ a e. IsGuarded-IsAdmitted event (Also F w) held (k a) (g.1 a),
  )
