-- ===== src/Pool/Settings.antt =====
-- `Connectionpool::loadConfigFile`: the lines `key=value` of mysql.cnf.
pub mod Entries
use high_performance_chatser.Prelude.{
  ℕ, ℤ, pos, negsuc, ◌+◌, ◌-◌, ◌%◌, Bytes, codes, List, [], ◌∷◌, ◌++◌, Option, none, some, length,
  take, drop, find, substr, eqb, bytes_eq, ◌==◌, if◌then◌else◌,
}
use high_performance_chatser.Prelude.Decimal.{to_port, atoi}
use high_performance_chatser.Model.Statements.{c_str}

-- The members that the file sets.
pub record Settings : Type 0 where
  pub ip : Bytes
  pub port : ℕ
  pub username : Bytes
  pub password : Bytes
  pub dbname : Bytes
  pub init_size : ℤ
  pub max_size : ℤ
  pub max_idle_time : ℤ
  pub connection_timeout : ℤ

-- `fgets` takes 1023 bytes at most, up to and with a newline.
abbrev pub line_size : ℕ
line_size = 1023

abbrev pub onto_first : ℕ → List Bytes → List Bytes
onto_first x [] = (x ∷ []) ∷ []
onto_first x (l ∷ ls) = (x ∷ l) ∷ ls

-- What the calls of `fgets` read, while `room` bytes are left in the line. The last call, which sets
-- the end of file, may read nothing.
unfoldable pub read_lines : ℕ → Bytes → List Bytes
read_lines room [] = [] ∷ []
read_lines room (x ∷ xs) =
    let next = read_lines line_size xs in
    let more = read_lines (room - 1) xs in
    if eqb x b'\n'
    then (x ∷ []) ∷ next
    else if eqb room 1
    then (x ∷ []) ∷ next
    else onto_first x more

unfoldable pub set_key : Bytes → Bytes → Settings → Settings
unfolding atoi to_port
set_key key value s =
    if key == codes "ip"
    then record s { ip = value }
    else if key == codes "port"
    then record s { port = to_port (atoi value) }
    else if key == codes "username"
    then record s { username = value }
    else if key == codes "password"
    then record s { password = value }
    else if key == codes "dbname"
    then record s { dbname = value }
    else if key == codes "initSize"
    then record s { init_size = atoi value }
    else if key == codes "maxSize"
    then record s { max_size = atoi value }
    else if key == codes "maxIdleTime"
    then record s { max_idle_time = atoi value }
    else if key == codes "connectionTimeout"
    then record s { connection_timeout = atoi value }
    else s

-- The value behind the `=` at `idx`: up to the newline, or to the end without one.
unfoldable pub value_at : ℕ → Bytes → Bytes
unfolding find
value_at idx str = elim (find b'\n' (drop idx str)) [
  | none ↦ drop (idx + 1) str
  | some end ↦ substr (idx + 1) (end - 1) str
]

-- The body of the loop, on what `fgets` has left in the zeroed array.
unfoldable pub load_line : Bytes → Settings → Settings
unfolding c_str find value_at set_key
load_line line s =
    let str = c_str line in
    elim (find b'=' str) [ none ↦ s | some idx ↦ set_key (take idx str) (value_at idx str) s ]

unfoldable pub load_lines : List Bytes → Settings → Settings
unfolding load_line
load_lines [] s = s
load_lines (l ∷ ls) s = load_lines ls (load_line l s)

-- `none` is a file that cannot be opened: then the members stay, and the pool has no connections.
unfoldable pub load_config_file : Option Bytes → Settings → Option Settings
unfolding read_lines load_lines
load_config_file none s = none
load_config_file (some text) s = some (load_lines (read_lines line_size text) s)
