-- ===== src/Service/Closing.antt =====
-- `clientCloseException` beside `loginout`.
use high_performance_chatser.Prelude.{
  ℤ, negsuc, ◌≡◌, ◌≢◌, ◌∙◌, refl, ap, inl, inr, false, codes, some, Option-cases, Bool-cases,
  UniqueKeys, Map, lookup, erase, int_eq, int_beq_iff, ◌==◌,
}
use high_performance_chatser.Platform.{Platform}
use high_performance_chatser.World.{World, ConnId, ◌>>=◌}
use high_performance_chatser.Model.Types.{default_user}
use high_performance_chatser.Service.Sessions.{
  first_key, forget_connection, close_finish, client_close_exception, loginout,
}
use high_performance_chatser.Service.Registry.{OneUser, first_key-none, first_key-some}

first_key-lookup :
    (conn : ConnId) (id : ℤ) (m : Map ℤ ConnId)
    → UniqueKeys m
    → OneUser conn m
    → lookup id m ≡ some conn
    → first_key conn m ≡ some id
first_key-lookup conn id m u one here = elim (Option-cases (first_key conn m)) [
  | inl e ↦ absurd (first_key-none conn m e id here)
  | inr (j, e) ↦ e ∙ ap some (one j id (first_key-some conn m j u e) here)
]

forget_connection_lem :
    (conn : ConnId) (id : ℤ) (m : Map ℤ ConnId)
    → first_key conn m ≡ some id
    → forget_connection conn m ≡ (record default_user { id = id }, erase id m)
unfolding forget_connection
forget_connection_lem conn id m e = rw (e, forget_connection)

-- If no user has two entries, and the user with the number id, which is not -1, is the only one with
-- a connection: the close of this connection does exactly what a logout of the user does, whatever
-- connection asks for it: the same map, the same statements and calls, and the same end.
pub close_is_loginout :
    {P : Platform} (conn other : ConnId) (js : P.Json) (id : ℤ) (w : World P)
    → UniqueKeys w.users
    → OneUser conn w.users
    → lookup id w.users ≡ some conn
    → id ≢ negsuc 0
    → P.get_int js (codes "id") ≡ some id
    → client_close_exception conn w ≡ loginout other js w
unfolding client_close_exception close_finish loginout ◌>>=◌
close_is_loginout {P} conn other js id w u one here known asked =
    let forgotten =
      forget_connection_lem conn id w.users (first_key-lookup conn id w.users u one here) in
    let named : (id == negsuc 0) ≡ false = elim (Bool-cases (id == negsuc 0)) [
      | inl e ↦ absurd (known ((int_beq_iff id (negsuc 0)).0 e))
      | inr e ↦ e
    ] in
    rw asked (rw forgotten (rw named refl))
