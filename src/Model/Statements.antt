-- ===== src/Model/Statements.antt =====
-- The SQL texts of model/*.cpp, each printed by `sprintf` into `char sql[1024]`.
use high_performance_chatser.Prelude.{
  ℕ, ℤ, Bytes, ◌≡◌, refl, ap, Lacks, codes, [], ◌∷◌, ◌++◌, Result, ok, stop, Stop, length, ltb, eqb,
  if◌then◌else◌,
}
use high_performance_chatser.Prelude.Decimal.{fmt_int}

abbrev pub sql_size : ℕ
sql_size = 1024

-- `c_str()` as `%s` prints it: up to the first zero byte.
unfoldable pub c_str : Bytes → Bytes
c_str [] = []
c_str (c ∷ cs) = let rest = c_str cs in if eqb c 0 then [] else c ∷ rest

pub c_str_whole : (text : Bytes) → Lacks 0 text → c_str text ≡ text
unfolding c_str
c_str_whole [] h = refl
c_str_whole (c ∷ cs) h = rw (h.0) (ap (◌∷◌ c) (c_str_whole cs h.1))

-- A text of 1024 bytes or more does not fit beside its zero byte.
unfoldable pub sprintf : Bytes → Result Bytes
sprintf sql = if ltb (length sql) sql_size then ok sql else stop Stop.buffer_overrun

unfoldable pub select_user_sql : ℤ → Bytes
unfolding fmt_int
select_user_sql id = codes "select * from user where id = " ++ fmt_int id

unfoldable pub update_state_sql : Bytes → ℤ → Bytes
unfolding c_str fmt_int
update_state_sql state id =
    codes "update user set state = '" ++ (c_str state ++ (codes "' where id = " ++ fmt_int id))

unfoldable pub reset_state_sql : Bytes
reset_state_sql = codes "update user set state = 'offline' where id = 'online'"

unfoldable pub insert_friend_sql : ℤ → ℤ → Bytes
unfolding fmt_int
insert_friend_sql userid friendid =
    codes "insert into friend values("
    ++ (fmt_int userid ++ (codes ", " ++ (fmt_int friendid ++ codes ")")))

unfoldable pub select_friends_sql : ℤ → Bytes
unfolding fmt_int
select_friends_sql userid =
    codes
      "select a.id, a.name, a.state from user a inner join friend b on b.friendid = a.id where b.userid = "
    ++ fmt_int userid

unfoldable pub insert_group_sql : Bytes → Bytes → Bytes
unfolding c_str
insert_group_sql name desc =
    codes "insert into allgroup(groupname, groupdesc) values('"
    ++ (c_str name ++ (codes "', '" ++ (c_str desc ++ codes "')")))

unfoldable pub insert_member_sql : ℤ → ℤ → Bytes → Bytes
unfolding c_str fmt_int
insert_member_sql groupid userid role =
    codes "insert into groupuser values("
    ++ (fmt_int groupid
        ++ (codes ", " ++ (fmt_int userid ++ (codes ", '" ++ (c_str role ++ codes "')")))))

unfoldable pub select_groups_sql : ℤ → Bytes
unfolding fmt_int
select_groups_sql userid =
    codes
      "select a.id, a.groupname, a.groupdesc from allgroup a inner join groupuser b on a.id = b.groupid where b.userid = "
    ++ fmt_int userid

unfoldable pub select_members_sql : ℤ → Bytes
unfolding fmt_int
select_members_sql groupid =
    codes
      "select a.id, a.name, a.state, b.grouprole from user a inner join groupuser b on a.id = b.userid where b.groupid = "
    ++ fmt_int groupid

unfoldable pub select_other_members_sql : ℤ → ℤ → Bytes
unfolding fmt_int
select_other_members_sql groupid userid =
    codes "select userid from groupuser where groupid = "
    ++ (fmt_int groupid ++ (codes " and userid != " ++ fmt_int userid))

unfoldable pub delete_offline_sql : ℤ → Bytes
unfolding fmt_int
delete_offline_sql userid = codes "delete from offlinemessage where userid = " ++ fmt_int userid

-- The closing parenthesis has no opening one.
unfoldable pub select_offline_sql : ℤ → Bytes
unfolding fmt_int
select_offline_sql userid =
    codes "select message from offlinemessage where id = " ++ (fmt_int userid ++ codes ")")
