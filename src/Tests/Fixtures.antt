-- ===== src/Tests/Fixtures.antt =====
-- A small platform: JSON objects as lists of members, and a database that knows some users, one
-- group and no stored message.
use high_performance_chatser.Prelude.{
  ℕ, suc, ℤ, pos, Bool, true, false, Bytes, codes, List, [], ◌∷◌, ◌++◌, Option, none, some, Map,
  lookup, insert, bytes_eq, ◌==◌, eqb, if◌then◌else◌,
}
use high_performance_chatser.Platform.{Platform, Row}
use high_performance_chatser.World.{World}
use high_performance_chatser.Model.Statements.{select_user_sql, select_other_members_sql}

pub data Member : Type 0 where
  int_member : ℤ → Member
  string_member : Bytes → Member
  strings_member : List Bytes → Member

abbrev pub Object : Type 0
Object = Map Bytes Member

abbrev pub as_int : Option Member → Option ℤ
as_int (some (int_member i)) = some i
as_int _ = none

abbrev pub as_string : Option Member → Option Bytes
as_string (some (string_member s)) = some s
as_string _ = none

abbrev pub as_strings : Option Member → Option (List Bytes)
as_strings (some (strings_member ss)) = some ss
as_strings _ = none

abbrev pub is_there : Option Member → Bool
is_there none = false
is_there (some m) = true

abbrev pub print_member : Member → Bytes
print_member (string_member s) = s
print_member _ = codes "#"

abbrev pub print_object : Object → Bytes
print_object [] = []
print_object ((k, m) ∷ ms) = k ++ print_member m ++ print_object ms

-- A message of user 1 to user `toid`, and to group 5.
abbrev pub chat_to : ℤ → Bytes → Object
chat_to toid text =
    (codes "msgid", int_member (pos 6))
    ∷ (codes "toid", int_member toid)
    ∷ (codes "msg", string_member text)
    ∷ []

abbrev pub chat_to_group : Object
chat_to_group =
    (codes "msgid", int_member (pos 10))
    ∷ (codes "id", int_member (pos 1))
    ∷ (codes "groupid", int_member (pos 5))
    ∷ []

abbrev pub login_of : ℤ → Bytes → Object
login_of id pwd =
    (codes "msgid", int_member (pos 1))
    ∷ (codes "id", int_member id)
    ∷ (codes "password", string_member pwd)
    ∷ []

-- The two texts that parse.
unfoldable pub parse_text : Bytes → Option Object
parse_text text =
    if text == codes "login 1"
    then some (login_of (pos 1) (codes "secret"))
    else if text == codes "chat 2"
    then some (chat_to (pos 2) (codes "hello"))
    else none

abbrev pub user_row : Bytes → Bytes → Bytes → Row
user_row id password state column =
    if eqb column 0
    then id
    else if eqb column 2
    then password
    else if eqb column 3
    then state
    else codes "name"

unfoldable pub select_rows : Bytes → List Row
unfolding select_user_sql select_other_members_sql
select_rows sql =
    if sql == select_user_sql (pos 1)
    then user_row (codes "1") (codes "secret") (codes "offline") ∷ []
    else if sql == select_user_sql (pos 2)
    then user_row (codes "2") (codes "pwd") (codes "offline") ∷ []
    else if sql == select_user_sql (pos 4)
    then user_row (codes "4") (codes "pwd") (codes "online") ∷ []
    else if sql == select_other_members_sql (pos 5) (pos 1)
    then user_row (codes "4") [] [] ∷ user_row (codes "3") [] [] ∷ []
    else []

-- The database counts the statements that it has executed.
abbrev pub small : Platform
small = record {
  Json = Object;
  parse = parse_text;
  dump = print_object;
  is_printable = λ j. true;
  null = [];
  get_int = λ j k. as_int (lookup k j);
  get_string = λ j k. as_string (lookup k j);
  get_strings = λ j k. as_strings (lookup k j);
  contains = λ j k. is_there (lookup k j);
  member_text = λ j k. elim (lookup k j) [ none ↦ codes "null" | some m ↦ print_member m ];
  set_int = λ j k i. insert k (int_member i) j;
  set_string = λ j k s. insert k (string_member s) j;
  set_strings = λ j k ss. insert k (strings_member ss) j;
  Db = ℕ;
  grant = λ d. (true, d);
  execute = λ sql d. (true, suc d);
  select = λ sql d. (some (select_rows sql), d);
  insert_id = λ d. pos d;
}

-- User 3 is connected.
abbrev pub one_here : World small
one_here = record { users = (pos 3, 30) ∷ []; db = 0; trace = [] }

abbrev pub nobody_here : World small
nobody_here = record { users = []; db = 0; trace = [] }
