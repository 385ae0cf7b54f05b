-- ===== src/Platform/Json.antt =====
-- What json.hpp documents of JSON objects: in an object that was built by assignments a member is
-- read back, and members do not disturb one another; what is printed without an exception, and what
-- was parsed, is read back as a value that the library's `==` takes for the same. A zero byte ends
-- the text that `parse` reads.
use high_performance_chatser.Prelude.{
  ℤ, Bool, true, false, Bytes, List, [], ◌∷◌, ◌++◌, Option, none, some, ◌≡◌, subst, eqb, All,
  bytes_eq, ◌==◌, if◌then◌else◌, Bool-cases, inl, inr, bytes_beq_iff,
}
use high_performance_chatser.Prelude.Decimal.{fmt_int}
use high_performance_chatser.Platform.{Platform}

-- What the program assigns to a member.
pub data Value : Type 0 where
  int_value : ℤ → Value
  string_value : Bytes → Value
  strings_value : List Bytes → Value

abbrev pub as_int : Option Value → Option ℤ
as_int (some (int_value i)) = some i
as_int _ = none

abbrev pub as_string : Option Value → Option Bytes
as_string (some (string_value s)) = some s
as_string _ = none

abbrev pub as_strings : Option Value → Option (List Bytes)
as_strings (some (strings_value ss)) = some ss
as_strings _ = none

abbrev pub is_there : Option Value → Bool
is_there none = false
is_there (some v) = true

-- The last assignment to a key.
abbrev pub last_of : Bytes → List (Bytes × Value) → Option Value → Option Value
last_of k [] o = o
last_of k ((k', v) ∷ fs) o = last_of k fs (if k' == k then some v else o)

module _ (P : Platform) where
  open P use {Json}

  -- `js[key] = value`
  abbrev pub set_value : Json → Bytes → Value → Json
  set_value j k (int_value i) = P.set_int j k i
  set_value j k (string_value s) = P.set_string j k s
  set_value j k (strings_value ss) = P.set_strings j k ss

  -- Assignments, from the first to the last.
  abbrev pub assign_all : Json → List (Bytes × Value) → Json
  assign_all j [] = j
  assign_all j ((k, v) ∷ fs) = assign_all (set_value j k v) fs

  abbrev pub object : List (Bytes × Value) → Json
  object fs = assign_all P.null fs

  -- What is found under one key.
  pub record Reads (j : Json) (k : Bytes) (o : Option Value) : Type 0 where
    pub int : P.get_int j k ≡ as_int o
    pub string : P.get_string j k ≡ as_string o
    pub strings : P.get_strings j k ≡ as_strings o
    pub there : P.contains j k ≡ is_there o
    pub text : (i : ℤ) → o ≡ some (int_value i) → P.member_text j k ≡ fmt_int i

  pub record JsonLaws : Type 1 where
    -- null, and the objects that assignments make of it
    pub IsBuilt : Json → Type 0
    pub null-IsBuilt : IsBuilt P.null
    pub set_value-IsBuilt :
        (j : Json) (k : Bytes) (v : Value) → IsBuilt j → IsBuilt (set_value j k v)
    pub parse-dump : (j : Json) → IsBuilt j → P.is_printable j ≡ true → P.parse (P.dump j) ≡ some j
    pub parse-dump_nul :
        (j : Json) (rest : Bytes)
        → IsBuilt j
        → P.is_printable j ≡ true
        → P.parse (P.dump j ++ 0 ∷ rest) ≡ some j
    pub parse-dump_parsed :
        (text : Bytes) (j : Json) → P.parse text ≡ some j → P.parse (P.dump j) ≡ some j
    pub parse-is_printable :
        (text : Bytes) (j : Json) → P.parse text ≡ some j → P.is_printable j ≡ true
    pub parse_empty : P.parse [] ≡ none
    pub dump_nonzero : (j : Json) → P.is_printable j ≡ true → All (λ c. eqb c 0 ≡ false) (P.dump j)
    pub reads_null : (k : Bytes) → Reads P.null k none
    pub reads_same :
        (j : Json) (k : Bytes) (v : Value) → IsBuilt j → Reads (set_value j k v) k (some v)
    pub reads_other :
        (j : Json) (k k' : Bytes) (v : Value) (o : Option Value)
        → IsBuilt j
        → (k == k') ≡ false
        → Reads j k' o
        → Reads (set_value j k v) k' o

module _ {P : Platform} (laws : JsonLaws P) where
  Reads-assign_all :
      (fs : List (Bytes × Value)) (j : P.Json) (k : Bytes) (o : Option Value)
      → laws.IsBuilt j
      → Reads P j k o
      → Reads P (assign_all P j fs) k (last_of k fs o)
  Reads-assign_all [] j k o b r = r
  Reads-assign_all ((k', v) ∷ fs) j k o b r =
      Reads-assign_all fs (set_value P j k' v) k _ (laws.set_value-IsBuilt j k' v b)
        (elim (Bool-cases (k' == k)) [
          | inl same ↦ rw same (
              subst (λ x. Reads P (set_value P j k' v) x (some v)) ((bytes_beq_iff k' k).0 same)
                (laws.reads_same j k' v b))
          | inr other ↦ rw other (laws.reads_other j k' k v o b other r)
        ])

  -- An object that was built by assignments has, under each key, the last value assigned to it.
  pub Reads-object :
      (fs : List (Bytes × Value)) (k : Bytes) → Reads P (object P fs) k (last_of k fs none)
  Reads-object fs k = Reads-assign_all fs P.null k none laws.null-IsBuilt (laws.reads_null k)

  assign_all-IsBuilt :
      (fs : List (Bytes × Value)) (j : P.Json) → laws.IsBuilt j → laws.IsBuilt (assign_all P j fs)
  assign_all-IsBuilt [] j b = b
  assign_all-IsBuilt ((k, v) ∷ fs) j b =
      assign_all-IsBuilt fs (set_value P j k v) (laws.set_value-IsBuilt j k v b)

  pub object-IsBuilt : (fs : List (Bytes × Value)) → laws.IsBuilt (object P fs)
  object-IsBuilt fs = assign_all-IsBuilt fs P.null laws.null-IsBuilt
