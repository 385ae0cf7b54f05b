-- ===== src/Pool/Settings/Entries.antt =====
-- The settings file as a list of entries.
use high_performance_chatser.Prelude.{
  ℕ, suc, ◌-◌, ◌<◌, ◌≡◌, ◌∙◌, refl, ap, Bytes, codes, List, [], ◌∷◌, ◌++◌, some, none, length, take,
  drop, arith, eqb, All, Lacks, All-append, find, find-append, take-length-append, drop-append,
  bytes_beq, append_assoc, pos, false, drop_past,
}
use high_performance_chatser.Prelude.Decimal.{port_back, fmt_int, atoi_whole}
use high_performance_chatser.Model.Statements.{c_str, c_str_whole}
use high_performance_chatser.Pool.Settings.{
  Settings, line_size, onto_first, read_lines, set_key, value_at, load_line, load_lines,
  load_config_file,
}

-- A line without its newline.
abbrev pub entry_line : Bytes × Bytes → Bytes
entry_line (key, value) = key ++ b'=' ∷ value

abbrev pub print_entries : List (Bytes × Bytes) → Bytes
print_entries [] = []
print_entries (e ∷ es) = entry_line e ++ b'\n' ∷ print_entries es

abbrev pub set_entries : List (Bytes × Bytes) → Settings → Settings
set_entries [] s = s
set_entries ((key, value) ∷ es) s = set_entries es (set_key key value s)

-- Neither part has a newline or a zero byte, the key has no `=`, and the line fits.
pub record IsEntry (e : Bytes × Bytes) : Type 0 where
  pub key_no_equals : Lacks b'=' e.0
  pub no_newline : Lacks b'\n' e.0 × Lacks b'\n' e.1
  pub no_zero : Lacks 0 e.0 × Lacks 0 e.1
  pub short : length (entry_line e) < line_size

read_lines-line :
    (line rest : Bytes) (room : ℕ)
    → Lacks b'\n' line
    → length line < room
    → read_lines room (line ++ b'\n' ∷ rest) ≡ (line ++ b'\n' ∷ []) ∷ read_lines line_size rest
unfolding read_lines
read_lines-line [] rest room clean fits = refl
read_lines-line (x ∷ line) rest room clean fits =
    let wide : eqb room 1 ≡ false = ground arith in
    rw clean.0
      (rw wide (ap (onto_first x) (read_lines-line line rest (room - 1) clean.1 (omega arith))))

value_at_lem :
    (key value : Bytes)
    → Lacks b'\n' value
    → value_at (length key) (key ++ (b'=' ∷ (value ++ b'\n' ∷ []))) ≡ value
unfolding value_at
value_at_lem key value clean =
    let str = key ++ (b'=' ∷ (value ++ b'\n' ∷ [])) in
    let found : find b'\n' (drop (length key) str) ≡ some (suc (length value)) =
      ap (find b'\n') (drop-append key (b'=' ∷ (value ++ b'\n' ∷ [])))
      ∙ find-append b'\n' (b'=' ∷ value) [] (refl, clean) in
    rw (found, value_at)
      (rw (drop_past key b'=' (value ++ b'\n' ∷ [])) (
        ap (λ n. take n (value ++ b'\n' ∷ [])) (omega arith)
        ∙ take-length-append value (b'\n' ∷ [])))

load_line_lem :
    (e : Bytes × Bytes) (s : Settings)
    → IsEntry e
    → load_line (entry_line e ++ b'\n' ∷ []) s ≡ set_key e.0 e.1 s
unfolding load_line
load_line_lem (key, value) s v =
    let str : Bytes = key ++ (b'=' ∷ (value ++ b'\n' ∷ [])) in
    let whole : c_str str ≡ str =
      c_str_whole str
        (All-append _ key _ v.no_zero.0 (refl, All-append _ value _ v.no_zero.1 (refl, tt))) in
    let found : find b'=' str ≡ some (length key) =
      find-append b'=' key (value ++ b'\n' ∷ []) v.key_no_equals in
    ap (λ l. load_line l s) (append_assoc key (b'=' ∷ value) (b'\n' ∷ []))
    ∙ ap (λ t. elim (find b'=' t) [ none ↦ s | some idx ↦ set_key (take idx t) (value_at idx t) s ])
        whole
    ∙ ap (λ o. elim o [ none ↦ s | some idx ↦ set_key (take idx str) (value_at idx str) s ]) found
    ∙ ap (λ k. set_key k (value_at (length key) str) s)
        (take-length-append key (b'=' ∷ (value ++ b'\n' ∷ [])))
    ∙ ap (λ x. set_key key x s) (value_at_lem key value v.no_newline.1)

load_entries :
    (es : List (Bytes × Bytes)) (s : Settings)
    → All IsEntry es
    → load_lines (read_lines line_size (print_entries es)) s ≡ set_entries es s
unfolding load_lines read_lines load_line
load_entries [] s v = refl
load_entries (e ∷ es) s (v, vs) =
    let clean : Lacks b'\n' (entry_line e) =
      All-append _ e.0 (b'=' ∷ e.1) v.no_newline.0 (refl, v.no_newline.1) in
    rw (read_lines-line (entry_line e) (print_entries es) line_size clean v.short) (
      ap (load_lines (read_lines line_size (print_entries es))) (load_line_lem e s v)
      ∙ load_entries es (set_key e.0 e.1 s) vs)

-- If no key has an `=`, no key or value has a newline or a zero byte, and each line is shorter than
-- 1023 bytes: loading a file that has one line `KEY=VALUE` for each entry sets the entries in order.
pub load_entries_in_order :
    (es : List (Bytes × Bytes)) (s : Settings)
    → All IsEntry es
    → load_config_file (some (print_entries es)) s ≡ some (set_entries es s)
unfolding load_config_file
load_entries_in_order es s v = ap some (load_entries es s v)

-- The file that has all members of `s`.
abbrev pub settings_entries : Settings → List (Bytes × Bytes)
settings_entries s =
    (codes "ip", s.ip)
    ∷ (codes "port", fmt_int (pos s.port))
    ∷ (codes "username", s.username)
    ∷ (codes "password", s.password)
    ∷ (codes "dbname", s.dbname)
    ∷ (codes "initSize", fmt_int s.init_size)
    ∷ (codes "maxSize", fmt_int s.max_size)
    ∷ (codes "maxIdleTime", fmt_int s.max_idle_time)
    ∷ (codes "connectionTimeout", fmt_int s.connection_timeout)
    ∷ []

set_settings : (s old : Settings) → s.port < 65536 → set_entries (settings_entries s) old ≡ s
unfolding set_key bytes_beq
set_settings s old h =
    rw
      (
        port_back s.port h,
        atoi_whole s.init_size,
        atoi_whole s.max_size,
        atoi_whole s.max_idle_time,
        atoi_whole s.connection_timeout,
      )
      refl

-- If the port is an `unsigned short` and every text fits its line and has no newline or zero byte:
-- loading a file that has a line for each member of `s` gives `s`, whatever the members were.
pub settings_round_trip :
    (s old : Settings)
    → s.port < 65536
    → All IsEntry (settings_entries s)
    → load_config_file (some (print_entries (settings_entries s))) old ≡ some s
settings_round_trip s old small ok_lines =
    load_entries_in_order (settings_entries s) old ok_lines ∙ ap some (set_settings s old small)
