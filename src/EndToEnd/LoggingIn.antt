-- ===== src/EndToEnd/LoggingIn.antt =====
-- The server's answers to a login, and what the client makes of them.
use high_performance_chatser.Prelude.{
  pos, ◌+◌, ◌<◌, ◌≡◌, ◌∙◌, refl, Bytes, codes, All, List, [], ◌∷◌, ◌++◌, some, length, map, ok,
  true, false, bytes_beq, Result,
}
use high_performance_chatser.Platform.{Platform}
use high_performance_chatser.Platform.Json.{
  Value, int_value, string_value, strings_value, JsonLaws, object, Reads-object, object-IsBuilt,
}
use high_performance_chatser.Model.Types.{User, default_user}
use high_performance_chatser.Service.Messages.{login_msg_ack}
use high_performance_chatser.Service.Responses.{friend_json, with_friends, login_ok}
use high_performance_chatser.Client.{Client}
use high_performance_chatser.Client.Responses.{
  each, read_user, read_friend, read_list, accept_login, do_login_response, dispatch, handle_text,
  receive, show_current_user_data,
}
use high_performance_chatser.EndToEnd.Texts.{receive-dump}

-- What a JSON text keeps of a user: not the password.
abbrev pub plain : User → User
plain user = record default_user { id = user.id; name = user.name; state = user.state }

-- The friends that the client has after an answer: those in it, if there are any.
abbrev pub friends_after : List User → List User → List User
friends_after [] old = old
friends_after (f ∷ fs) old = map plain (f ∷ fs)

-- The client after an answer that accepts its login, without offline messages.
abbrev pub logged_in : User → List User → Client → Client
logged_in user friends c =
    let c' : Client = record c {
      current_user = record c.current_user { id = user.id; name = user.name };
      friend_list = friends_after friends c.friend_list;
    } in
    record c' {
      shown = (show_current_user_data c').shown ++ [];
      is_login_success = true;
      permits = c.permits + 1;
    }

-- If each item of a list is read back, the list is.
each-map :
    {A B C : Type 0} (Q : A → Type 0) (f : B → Result C) (g : A → B) (h : A → C)
    → ((a : A) → Q a → f (g a) ≡ ok (h a))
    → (as' : List A) → All Q as'
    → each f (map g as') ≡ ok (map h as')
unfolding each
each-map Q f g h e [] q = refl
each-map Q f g h e (a ∷ as') q = rw (e a q.0) (rw (each-map Q f g h e as' q.1) refl)

module _ {P : Platform} (laws : JsonLaws P) where
  read_friend-json :
      (user : User)
      → P.is_printable (friend_json P user) ≡ true
      → read_friend P (P.dump (friend_json P user)) ≡ ok (plain user)
  unfolding read_friend read_user friend_json bytes_beq
  read_friend-json user p =
      let fields : List (Bytes × Value) =
        (codes "id", int_value user.id)
        ∷ (codes "name", string_value user.name)
        ∷ (codes "state", string_value user.state)
        ∷ [] in
      rw (laws.parse-dump (object P fields) (object-IsBuilt laws fields) p) (
        rw ((Reads-object laws fields (codes "id")).int) (
          rw ((Reads-object laws fields (codes "name")).string)
            (rw ((Reads-object laws fields (codes "state")).string) refl)))

  -- What the client looks up in an answer that accepts a login.
  record IsAccepting (js : P.Json) (user : User) (friends : List User) : Type 0 where
    msgid : P.get_int js (codes "msgid") ≡ some login_msg_ack
    errno : P.get_int js (codes "errno") ≡ some (pos 0)
    id : P.get_int js (codes "id") ≡ some user.id
    name : P.get_string js (codes "name") ≡ some user.name
    friend_list :
        (old : List User)
        → read_list P (read_friend P) (codes "friends") js old ≡ ok (friends_after friends old)
    no_groups : P.contains js (codes "groups") ≡ false
    no_offline : P.contains js (codes "offlinemsg") ≡ false

  accepting :
      (user : User) (friends : List User)
      → All (λ f. P.is_printable (friend_json P f) ≡ true) friends
      → IsAccepting (with_friends P friends (login_ok P user)) user friends
  unfolding with_friends login_ok read_list bytes_beq
  accepting user [] p =
      let fields : List (Bytes × Value) =
        (codes "msgid", int_value login_msg_ack)
        ∷ (codes "id", int_value user.id)
        ∷ (codes "errno", int_value (pos 0))
        ∷ (codes "name", string_value user.name)
        ∷ [] in
      record {
        msgid = (Reads-object laws fields (codes "msgid")).int;
        errno = (Reads-object laws fields (codes "errno")).int;
        id = (Reads-object laws fields (codes "id")).int;
        name = (Reads-object laws fields (codes "name")).string;
        friend_list = λ old. rw ((Reads-object laws fields (codes "friends")).there) refl;
        no_groups = (Reads-object laws fields (codes "groups")).there;
        no_offline = (Reads-object laws fields (codes "offlinemsg")).there;
      }
  accepting user (f ∷ fs) p =
      let strs = map (λ u. P.dump (friend_json P u)) (f ∷ fs) in
      let fields : List (Bytes × Value) =
        (codes "msgid", int_value login_msg_ack)
        ∷ (codes "id", int_value user.id)
        ∷ (codes "errno", int_value (pos 0))
        ∷ (codes "name", string_value user.name)
        ∷ (codes "friends", strings_value strs)
        ∷ [] in
      record {
        msgid = (Reads-object laws fields (codes "msgid")).int;
        errno = (Reads-object laws fields (codes "errno")).int;
        id = (Reads-object laws fields (codes "id")).int;
        name = (Reads-object laws fields (codes "name")).string;
        friend_list = λ old. rw ((Reads-object laws fields (codes "friends")).there) (
            rw ((Reads-object laws fields (codes "friends")).strings) (
              each-map (λ u. P.is_printable (friend_json P u) ≡ true) (read_friend P)
                (λ u. P.dump (friend_json P u)) plain read_friend-json (f ∷ fs) p));
        no_groups = (Reads-object laws fields (codes "groups")).there;
        no_offline = (Reads-object laws fields (codes "offlinemsg")).there;
      }

  login_ok-IsBuilt : (user : User) → laws.IsBuilt (login_ok P user)
  unfolding login_ok
  login_ok-IsBuilt user = object-IsBuilt laws (
      (codes "msgid", int_value login_msg_ack)
      ∷ (codes "id", int_value user.id)
      ∷ (codes "errno", int_value (pos 0))
      ∷ (codes "name", string_value user.name)
      ∷ [])

  with_friends-IsBuilt :
      (user : User) (friends : List User) → laws.IsBuilt (with_friends P friends (login_ok P user))
  unfolding with_friends
  with_friends-IsBuilt user [] = login_ok-IsBuilt user
  with_friends-IsBuilt user (f ∷ fs) =
      laws.set_value-IsBuilt (login_ok P user) (codes "friends")
        (strings_value (map (λ u. P.dump (friend_json P u)) (f ∷ fs))) (login_ok-IsBuilt user)

  -- If an answer that accepts a login has no offline messages and less than 1024 bytes, and its texts
  -- and those of the friends' objects in it are UTF-8: the client reads in it the user and the
  -- friends that the server has put there, posts the semaphore, and allows the menu. It keeps its
  -- old list of friends when the answer has none, and its old list of groups always.
  pub login_answer_read :
      (user : User) (friends : List User) (c : Client)
      → All (λ f. P.is_printable (friend_json P f) ≡ true) friends
      → P.is_printable (with_friends P friends (login_ok P user)) ≡ true
      → length (P.dump (with_friends P friends (login_ok P user))) < 1024
      → receive P (P.dump (with_friends P friends (login_ok P user))) c
        ≡ ok (logged_in user friends c)
  unfolding handle_text dispatch do_login_response accept_login read_list
  login_answer_read user friends c texts text short =
      let js = with_friends P friends (login_ok P user) in
      let a = accepting user friends texts in
      let b = with_friends-IsBuilt user friends in
      receive-dump laws js c b text short
      ∙ rw (laws.parse-dump js b text) (
          rw a.msgid (
            rw a.errno (
              rw a.id (
                rw a.name
                  (rw (a.friend_list c.friend_list) (rw a.no_groups (rw a.no_offline refl)))))))
