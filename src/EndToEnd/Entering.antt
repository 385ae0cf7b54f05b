-- ===== src/EndToEnd/Entering.antt =====
-- A login from the console of a client to its menu.
use high_performance_chatser.Prelude.{
  ℤ, ◌<◌, ◌≡◌, ◌∙◌, refl, sym, ap, Bool, true, false, Bytes, codes, All, List, [], ◌∷◌, ◌++◌,
  length, insert, Result, ok, stop, Stop, map, ◌⊎◌, inl, inr, Bool-cases, int_eq, bytes_eq,
  bytes_beq, append-nil,
}
use high_performance_chatser.Platform.{Platform}
use high_performance_chatser.Platform.Json.{JsonLaws, object, Reads-object}
use high_performance_chatser.World.{World, ConnId, Effect, sent, subscribed, resume, ◌>>=◌, pure}
use high_performance_chatser.World.Keeps.{Stable}
use high_performance_chatser.Model.Types.{User, Group, online}
use high_performance_chatser.Model.UserModel
use high_performance_chatser.Model.FriendModel
use high_performance_chatser.Model.GroupModel
use high_performance_chatser.Model.OfflineMsgModel
use high_performance_chatser.Model.Keeps.{query_groups-Keeps, user_query-Keeps}
use high_performance_chatser.Service.Messages.{get_handler, msg_handler_map}
use high_performance_chatser.Service.Responses.{
  friend_json, groups_dumped, login_ok, with_friends, with_groups,
}
use high_performance_chatser.Service.Credentials.{Authentic, users_of_accept}
use high_performance_chatser.Service.Keeps.{users_stable}
use high_performance_chatser.Service.Races.{checked_accepts}
use high_performance_chatser.Service.Sessions.{
  login, login_accept, login_greet, with_offline, dumps,
}
use high_performance_chatser.Service.Dispatch.{on_message, run_handler}
use high_performance_chatser.Client.{Client, awaiting_login, in_menu}
use high_performance_chatser.Client.Requests.{login_fields, request, send_request}
use high_performance_chatser.Client.Responses.{receive}
use high_performance_chatser.Client.Session.{login_choice, typed, choose, enter_menu}
use high_performance_chatser.EndToEnd.LoggingIn.{logged_in, login_answer_read}
use high_performance_chatser.EndToEnd.Texts.{parse-request}

module _ {P : Platform} where
  -- No call leaves the process.
  silent : (t : List Effect) → Stable {P = P} (λ e. ⊥) (λ w. w.trace ≡ t)
  silent t = record { db_change = λ w d h. h; call = λ w e a h. absurd a }

  -- The database answers a login: the user has this row, no stored message, and these friends.
  pub record Answers (conn : ConnId) (id : ℤ) (user : User) (friends : List User) (w w' : World P)
      : Type 0 where
    pub queried : World P
    pub updated : World P
    pub checked : World P
    pub marked : Bool
    pub finds_user : UserModel.query id w ≡ (ok user, queried)
    pub marks_user :
        UserModel.update_state
          (record user { state = online })
          (record queried {
            users = insert id conn queried.users;
            trace = queried.trace ++ subscribed id ∷ [];
          })
        ≡ (ok marked, updated)
    pub no_messages : OfflineMsgModel.query id updated ≡ (ok [], checked)
    pub finds_friends : FriendModel.query id checked ≡ (ok friends, w')

  dumps_cases :
      (js : List P.Json) (w : World P)
      → (dumps js w ≡ (ok tt, w)) ⊎ (dumps js w ≡ (stop Stop.json_exception, w))
  unfolding dumps
  dumps_cases [] w = inl refl
  dumps_cases (j ∷ js) w = elim (Bool-cases (P.is_printable j)) [
    | inl fine ↦ rw fine (dumps_cases js w)
    | inr bad ↦ rw bad (inr refl)
  ]

  friends_dumped :
      (friends : List User) (response : P.Json) (w : World P)
      → All (λ f. P.is_printable (friend_json P f) ≡ true) friends
      → P.is_printable response ≡ true
      → dumps (map (friend_json P) friends ++ response ∷ []) w ≡ (ok tt, w)
  unfolding dumps
  friends_dumped [] response w texts p = rw p refl
  friends_dumped (f ∷ fs) response w texts p = rw texts.0 (friends_dumped fs response w texts.1 p)

  -- What comes behind the answer sends nothing.
  after_answer :
      (r : Result (List Group)) (w : World P) (f : List Group → P.Json)
      → (resume
          (r, w)
          (λ groups.
            dumps (groups_dumped P groups) >>= λ _. pure (f groups) >>= λ _. pure tt)).1.trace
        ≡ w.trace
  unfolding ◌>>=◌
  after_answer (ok groups) w f = elim (dumps_cases (groups_dumped P groups) w) [
    | inl back ↦ rw back refl
    | inr thrown ↦ rw thrown refl
  ]
  after_answer (stop e) w f = refl

  accepted_trace :
      (conn : ConnId) (id : ℤ) (user : User) (friends : List User) (w w' : World P)
      (a : Answers conn id user friends w w')
      → All (λ f. P.is_printable (friend_json P f) ≡ true) friends
      → P.is_printable (with_friends P friends (login_ok P user)) ≡ true
      → (login_accept conn id user a.queried).1.trace
        ≡ w'.trace ++ sent conn (P.dump (with_friends P friends (login_ok P user))) ∷ []
  unfolding login_accept login_greet ◌>>=◌ with_offline
  accepted_trace conn id user friends w w' a texts p =
      let said : World P = record w' {
        trace = w'.trace ++ sent conn (P.dump (with_friends P friends (login_ok P user))) ∷ [];
      } in
      let (r, rest) = GroupModel.query_groups {P = P} id said in
      let dumped = friends_dumped friends (with_friends P friends (login_ok P user)) w' texts p in
      rw a.marks_user (
        rw a.no_messages (
          rw a.finds_friends (
            rw dumped (
              after_answer r rest
                (λ groups. with_groups P groups (with_friends P friends (login_ok P user)))
              ∙ (query_groups-Keeps (silent said.trace) id).at said refl))))

module _ {P : Platform} (laws : JsonLaws P) where
  serve_login :
      (conn : ConnId) (id : ℤ) (pwd : Bytes) (user : User) (friends : List User) (w w' : World P)
      → P.is_printable (object P (login_fields id pwd)) ≡ true
      → Authentic id pwd user
      → (a : Answers conn id user friends w w')
      → on_message conn (request P (login_fields id pwd)) w ≡ login_accept conn id user a.queried
  unfolding on_message ◌>>=◌ run_handler get_handler msg_handler_map login bytes_beq
  serve_login conn id pwd user friends w w' p auth a =
      let fields = login_fields id pwd in
      let parsed =
        ap P.parse (sym (append-nil (request P fields))) ∙ parse-request laws fields [] p in
      rw parsed (
        rw ((Reads-object laws fields (codes "msgid")).int) (
          rw ((Reads-object laws fields (codes "id")).int) (
            rw ((Reads-object laws fields (codes "password")).string)
              (rw a.finds_user (checked_accepts conn id pwd user a.queried auth)))))

  -- If the server finds a row with the given number and the given password, up to a zero byte in its
  -- first 49 bytes, not marked online, no stored message for it, and some friends, and if the texts
  -- of the request, of the answer and of the friends' objects in it are UTF-8 and the answer has less
  -- than 1024 bytes: the client's choice makes one request and waits; the last call that the server
  -- makes for it sends the answer to the same connection, and its map has the old entries and, if the
  -- user had none, one for the connection; the client reads the user and the friends from the
  -- answer; and its main thread enters the menu.
  pub login_enters_menu :
      (c : Client) (conn : ConnId) (id : ℤ) (pwd : Bytes) (user : User) (friends : List User)
      (w w' : World P)
      → Authentic id (typed pwd) user
      → Answers conn id user friends w w'
      → P.is_printable (object P (login_fields id (typed pwd))) ≡ true
      → All (λ f. P.is_printable (friend_json P f) ≡ true) friends
      → P.is_printable (with_friends P friends (login_ok P user)) ≡ true
      → length (P.dump (with_friends P friends (login_ok P user))) < 1024
      → let asked = choose P (login_choice id pwd) true c in
        let answer = P.dump (with_friends P friends (login_ok P user)) in
        (req : Bytes) × (asked ≡ record c {
          sent = c.sent ++ req ∷ [];
          phase = awaiting_login;
          is_login_success = false;
        })
        × ((on_message conn req w).1.trace ≡ w'.trace ++ sent conn answer ∷ [])
        × ((on_message conn req w).1.users ≡ insert id conn w.users)
        × (receive P answer asked ≡ ok (logged_in user friends asked))
        × ((enter_menu (record (logged_in user friends asked) { permits = c.permits })).phase
            ≡ in_menu)
  unfolding choose send_request enter_menu
  login_enters_menu c conn id pwd user friends w w' auth a p texts q short =
      let served = serve_login conn id (typed pwd) user friends w w' p auth a in
      (
        request P (login_fields id (typed pwd)),
        rw p refl,
        ap (λ r. r.1.trace) served ∙ accepted_trace conn id user friends w w' a texts q,
        ap (λ r. r.1.users) served
            ∙ users_of_accept conn id user a.queried
            ∙ ap (insert id conn) (
                ap (λ r. r.1.users) (sym a.finds_user)
                ∙ (user_query-Keeps (users_stable (λ m. m ≡ w.users)) id).at w refl),
        login_answer_read laws user friends (choose P (login_choice id pwd) true c) texts q short,
        refl,
      )
