-- ===== src/Model/Types.antt =====
-- model/user.h, group.h and groupuser.h. The setters are record updates and the getters fields.
use high_performance_chatser.Prelude.{ℤ, negsuc, Bytes, codes, List, []}

pub record User : Type 0 where
  pub id : ℤ
  pub name : Bytes
  pub password : Bytes
  pub state : Bytes

abbrev pub online : Bytes
online = codes "online"

abbrev pub offline : Bytes
offline = codes "offline"

-- `User()`, and the default arguments of the constructor.
abbrev pub default_user : User
default_user = record { id = negsuc 0; name = []; password = []; state = offline }

-- `GroupUser`, which extends `User`.
pub record GroupUser : Type 0 where
  pub user : User
  pub open user use *
  pub role : Bytes

pub record Group : Type 0 where
  pub id : ℤ
  pub name : Bytes
  pub desc : Bytes
  pub users : List GroupUser

-- `Group(id, name, desc)`
abbrev pub new_group : ℤ → Bytes → Bytes → Group
new_group id name desc = record { id = id; name = name; desc = desc; users = [] }
