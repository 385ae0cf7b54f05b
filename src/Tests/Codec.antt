-- ===== src/Tests/Codec.antt =====
-- A platform whose JSON is printed and read back: an object is a list of keys with encoded values,
-- and a list of texts is printed byte by byte, each text closed by 1.
use high_performance_chatser.Prelude.{
  ℕ, suc, pos, negsuc, ◌+◌, ◌-◌, ◌≡◌, ◌∙◌, refl, ap, true, false, Bytes, codes, List, [], ◌∷◌, ◌++◌,
  map, Option, none, some, arith, eqb, All-append, Lacks, Map, lookup, assign, lookup-assign,
  bytes_eq, bytes_beq_iff, ◌==◌, if◌then◌else◌,
}
use high_performance_chatser.Prelude.Decimal.{fmt_int}
use high_performance_chatser.Platform.{Platform}
use high_performance_chatser.Platform.Json.{
  Value, int_value, string_value, strings_value, as_int, as_string, as_strings, is_there, set_value,
  Reads, JsonLaws,
}
use high_performance_chatser.Model.Statements.{c_str, c_str_whole}
use high_performance_chatser.Tests.Fixtures.{select_rows}

abbrev shift : Bytes → Bytes
shift [] = []
shift (x ∷ xs) = (x + 2) ∷ shift xs

abbrev encode : List Bytes → Bytes
encode [] = []
encode (s ∷ ss) = shift s ++ 1 ∷ encode ss

abbrev onto_first : ℕ → List Bytes → List Bytes
onto_first x [] = (x ∷ []) ∷ []
onto_first x (s ∷ ss) = (x ∷ s) ∷ ss

unfoldable pub decode : Bytes → List Bytes
decode [] = []
decode (x ∷ xs) = let rest = decode xs in if eqb x 1 then [] ∷ rest else onto_first (x - 2) rest

decode-shift : (s rest : Bytes) → decode (shift s ++ 1 ∷ rest) ≡ s ∷ decode rest
unfolding decode
decode-shift [] rest = refl
decode-shift (x ∷ s) rest =
    let other : eqb (x + 2) 1 ≡ false = ground arith in
    let back : x + 2 - 2 ≡ x = omega arith in
    rw other (rw (decode-shift s rest) (ap (λ n. (n ∷ s) ∷ decode rest) back))

decode-encode : (ss : List Bytes) → decode (encode ss) ≡ ss
unfolding decode
decode-encode [] = refl
decode-encode (s ∷ ss) = decode-shift s (encode ss) ∙ ap (◌∷◌ s) (decode-encode ss)

shift_nonzero : (s : Bytes) → Lacks 0 (shift s)
shift_nonzero [] = tt
shift_nonzero (x ∷ s) = (ground arith, shift_nonzero s)

encode_nonzero : (ss : List Bytes) → Lacks 0 (encode ss)
encode_nonzero [] = tt
encode_nonzero (s ∷ ss) = All-append _ (shift s) _ (shift_nonzero s) (refl, encode_nonzero ss)

abbrev pub Object : Type 0
Object = Map Bytes (List Bytes)

abbrev encode_value : Value → List Bytes
encode_value (int_value (pos n)) = (0 ∷ []) ∷ (n ∷ []) ∷ []
encode_value (int_value (negsuc n)) = (1 ∷ []) ∷ (n ∷ []) ∷ []
encode_value (string_value s) = (2 ∷ []) ∷ s ∷ []
encode_value (strings_value ss) = (3 ∷ []) ∷ ss

abbrev head_of : Bytes → ℕ
head_of [] = 0
head_of (x ∷ xs) = x

abbrev first_of : List Bytes → Bytes
first_of [] = []
first_of (s ∷ ss) = s

abbrev value_of : List Bytes → Value
value_of [] = string_value []
value_of (tag ∷ ss) =
    if eqb (head_of tag) 0
    then int_value (pos (head_of (first_of ss)))
    else if eqb (head_of tag) 1
    then int_value (negsuc (head_of (first_of ss)))
    else if eqb (head_of tag) 2
    then string_value (first_of ss)
    else strings_value ss

value_of-encode : (v : Value) → value_of (encode_value v) ≡ v
value_of-encode (int_value (pos n)) = refl
value_of-encode (int_value (negsuc n)) = refl
value_of-encode (string_value s) = refl
value_of-encode (strings_value ss) = refl

abbrev found_value : Option (List Bytes) → Option Value
found_value none = none
found_value (some ss) = some (value_of ss)

abbrev read : Object → Bytes → Option Value
read j k = found_value (lookup k j)

abbrev text_of : Option Value → Bytes
text_of none = codes "null"
text_of (some (int_value i)) = fmt_int i
text_of (some (string_value s)) = s
text_of (some (strings_value ss)) = []

abbrev entry : Bytes × List Bytes → Bytes
entry (k, v) = encode (k ∷ v)

abbrev entry_of : List Bytes → Bytes × List Bytes
entry_of [] = ([], [])
entry_of (k ∷ v) = (k, v)

unfoldable pub print : Object → Bytes
print j = 3 ∷ encode (map entry j)

unfoldable pub parse_text : Bytes → Option Object
parse_text [] = none
parse_text (x ∷ xs) = some (map (λ s. entry_of (decode s)) (decode (c_str xs)))

abbrev set : Object → Bytes → Value → Object
set j k v = assign k (encode_value v) j

abbrev pub coded : Platform
coded = record {
  Json = Object;
  parse = parse_text;
  dump = print;
  is_printable = λ j. true;
  null = [];
  get_int = λ j k. as_int (read j k);
  get_string = λ j k. as_string (read j k);
  get_strings = λ j k. as_strings (read j k);
  contains = λ j k. is_there (read j k);
  member_text = λ j k. text_of (read j k);
  set_int = λ j k i. set j k (int_value i);
  set_string = λ j k s. set j k (string_value s);
  set_strings = λ j k ss. set j k (strings_value ss);
  Db = ℕ;
  grant = λ d. (true, d);
  execute = λ sql d. (true, suc d);
  select = λ sql d. (some (select_rows sql), d);
  insert_id = λ d. pos d;
}

entries_back : (j : Object) → map (λ s. entry_of (decode s)) (map entry j) ≡ j
entries_back [] = refl
entries_back ((k, v) ∷ j) = rw (decode-encode (k ∷ v)) (ap (◌∷◌ (k, v)) (entries_back j))

c_str_up_to_zero : (xs rest : Bytes) → Lacks 0 xs → c_str (xs ++ 0 ∷ rest) ≡ xs
unfolding c_str
c_str_up_to_zero [] rest h = refl
c_str_up_to_zero (x ∷ xs) rest h = rw h.0 (ap (◌∷◌ x) (c_str_up_to_zero xs rest h.1))

read-set : (j : Object) (k : Bytes) (v : Value) → read (set j k v) k ≡ some v
read-set j k v =
    let same : (k == k) ≡ true = (bytes_beq_iff k k).1 refl in
    let found : lookup k (set j k v) ≡ some (encode_value v) =
      lookup-assign k k (encode_value v) j
      ∙ ap (λ b. if b then some (encode_value v) else lookup k j) same in
    ap found_value found ∙ ap some (value_of-encode v)

read_other :
    (j : Object) (k k' : Bytes) (v : Value) → (k == k') ≡ false → read (set j k v) k' ≡ read j k'
read_other j k k' v other =
    let found : lookup k' (set j k v) ≡ lookup k' j =
      lookup-assign k k' (encode_value v) j
      ∙ ap (λ b. if b then some (encode_value v) else lookup k' j) other in
    ap found_value found

Reads-of : (j : Object) (k : Bytes) (o : Option Value) → read j k ≡ o → Reads coded j k o
Reads-of j k o e = record {
  int = ap as_int e;
  string = ap as_string e;
  strings = ap as_strings e;
  there = ap is_there e;
  text = λ i h. ap text_of (e ∙ h);
}

Reads-as :
    (j j' : Object) (k : Bytes) (o : Option Value)
    → read j' k ≡ read j k
    → Reads coded j k o
    → Reads coded j' k o
Reads-as j j' k o e r = record {
  int = ap as_int e ∙ r.int;
  string = ap as_string e ∙ r.string;
  strings = ap as_strings e ∙ r.strings;
  there = ap is_there e ∙ r.there;
  text = λ i h. ap text_of e ∙ r.text i h;
}

set_value-set : (j : Object) (k : Bytes) (v : Value) → set_value coded j k v ≡ set j k v
set_value-set j k (int_value i) = refl
set_value-set j k (string_value s) = refl
set_value-set j k (strings_value ss) = refl

pub parsed_back : (j : Object) → parse_text (print j) ≡ some j
unfolding print parse_text
parsed_back j =
    rw (c_str_whole (encode (map entry j)) (encode_nonzero (map entry j)))
      (rw (decode-encode (map entry j)) (ap some (entries_back j)))

pub coded-JsonLaws : JsonLaws coded
unfolding print parse_text lookup
coded-JsonLaws = record {
  IsBuilt = λ j. Unit;
  null-IsBuilt = tt;
  set_value-IsBuilt = λ j k v b. tt;
  parse-dump = λ j b p. parsed_back j;
  parse-dump_parsed = λ text j e. parsed_back j;
  parse-is_printable = λ text j e. refl;
  parse-dump_nul = λ j rest b p.
      rw (c_str_up_to_zero (encode (map entry j)) rest (encode_nonzero (map entry j)))
        (rw (decode-encode (map entry j)) (ap some (entries_back j)));
  parse_empty = refl;
  dump_nonzero = λ j p. (refl, encode_nonzero (map entry j));
  reads_null = λ k. Reads-of [] k none refl;
  reads_same =
      λ j k v b. rw (set_value-set j k v) (Reads-of (set j k v) k (some v) (read-set j k v));
  reads_other = λ j k k' v o b other r.
      rw (set_value-set j k v) (Reads-as j (set j k v) k' o (read_other j k k' v other) r);
}
