-- ===== src/Prelude/Decimal.antt =====
-- `printf("%d")` and `atoi` of the C library, as the program uses them: decimal text of an `int`
-- and back. `atoi` is undefined when the value does not fit an `int`; here it stays exact.
use Prim.Native.Nat.{ℕ, zero, suc, ◌+◌, ◌-◌, ◌*◌, ◌/◌, ◌%◌, ◌≤◌, ◌<◌}
use mathlib.Core.Path.{◌≡◌, refl, sym, ap, ◌∙◌}
use mathlib.Core.Logic.{◌⊎◌, inl, inr}
use mathlib.Core.Bool.{Bool, true, false, ◌&&◌, ◌||◌}
use mathlib.Core.List.{[], ◌∷◌, ◌++◌, append_assoc, append-nil}
use native.Mathlib.Omega.{arith}
use high_performance_chatser.Prelude.Lists.{All, All-append, length, length-append}
use high_performance_chatser.Prelude.Texts.{Lacks}
use high_performance_chatser.Prelude.Tests.{
  eqb_iff, ltb→lt, ltb, leb, eqb, if◌then◌else◌, Bool-cases,
}
use high_performance_chatser.Prelude.Keys.{ℤ, pos, negsuc, Bytes}

abbrev pub is_digit : ℕ → Bool
is_digit c = leb 48 c && leb c 57

abbrev is_space : ℕ → Bool
is_space c = eqb c 32 || (leb 9 c && leb c 13)

-- The digits of `n`, with fuel above `n`.
unfoldable pub show_from : ℕ → ℕ → Bytes
show_from zero n = []
show_from (suc f) n =
    let rest = show_from f (n / 10) in
    if ltb n 10 then (48 + n) ∷ [] else rest ++ (48 + n % 10) ∷ []

unfoldable pub show_nat : ℕ → Bytes
unfolding show_from
show_nat n = show_from (suc n) n

-- `%d`
unfoldable pub fmt_int : ℤ → Bytes
unfolding show_nat
fmt_int (pos n) = show_nat n
fmt_int (negsuc n) = b'-' ∷ show_nat (suc n)

-- The bytes that a decimal number consists of: digits and the minus sign.
abbrev pub IsNumeral : Bytes → Type 0
IsNumeral = All (λ c. (45 ≤ c) × (c ≤ 57))

show_from-IsNumeral : (f n : ℕ) → IsNumeral (show_from f n)
unfolding show_from
show_from-IsNumeral zero n = tt
show_from-IsNumeral (suc f) n = elim (Bool-cases (ltb n 10)) [
  | inl small ↦ rw small (omega (arith, ltb→lt n 10 small), tt)
  | inr big ↦ rw big (
      All-append _ (show_from f (n / 10)) ((48 + n % 10) ∷ []) (show_from-IsNumeral f (n / 10))
        (omega arith, tt))
]

pub fmt_int-IsNumeral : (i : ℤ) → IsNumeral (fmt_int i)
unfolding fmt_int show_nat
fmt_int-IsNumeral (pos n) = show_from-IsNumeral (suc n) n
fmt_int-IsNumeral (negsuc n) = (omega arith, show_from-IsNumeral (suc (suc n)) (suc n))

-- A byte that is no digit and no minus sign does not occur in a number.
pub numeral-Lacks : (c : ℕ) (xs : Bytes) → (c < 45) ⊎ (57 < c) → IsNumeral xs → Lacks c xs
numeral-Lacks c [] out h = tt
numeral-Lacks c (x ∷ xs) out h = (ground (arith, eqb_iff x c, h.0), numeral-Lacks c xs out h.1)

unfoldable pub read_digits : ℕ → Bytes → ℕ
read_digits acc [] = acc
read_digits acc (c ∷ cs) =
    let rest = read_digits (acc * 10 + (c - 48)) cs in if is_digit c then rest else acc

unfoldable pub skip_space : Bytes → Bytes
skip_space [] = []
skip_space (c ∷ cs) = let rest = skip_space cs in if is_space c then rest else c ∷ cs

abbrev negated : ℕ → ℤ
negated zero = pos 0
negated (suc n) = negsuc n

signed_digits : Bytes → ℤ
unfolding read_digits
signed_digits [] = pos 0
signed_digits (c ∷ cs) =
    if eqb c b'-'
    then negated (read_digits 0 cs)
    else if eqb c b'+'
    then pos (read_digits 0 cs)
    else pos (read_digits 0 (c ∷ cs))

-- The values of an `int`.
abbrev pub IsInt : ℤ → Type 0
IsInt (pos n) = n < 2147483648
IsInt (negsuc n) = n < 2147483648

-- For a text whose number is an `int`; on others the function's result is undefined.
unfoldable pub atoi : Bytes → ℤ
unfolding skip_space signed_digits
atoi s = signed_digits (skip_space s)

-- Reading the digits of `n` leaves the value `n` and goes on with what follows them.
read-show : (f n : ℕ) (ys : Bytes) → n < f → read_digits 0 (show_from f n ++ ys) ≡ read_digits n ys
unfolding show_from read_digits
read-show zero n ys h = absurd (omega arith)
read-show (suc f) n ys h = elim (Bool-cases (ltb n 10)) [
  | inl small ↦ rw small (ground (arith, ap (λ k. read_digits k ys) (shift n)))
  | inr large ↦ rw large (
      rw append_assoc (
        read-show f (n / 10) ((48 + n % 10) ∷ ys) (ground arith)
        ∙ ground (arith, ap (λ k. read_digits k ys) (low n))))
]
  where
    shift : (k : ℕ) → 0 * 10 + (48 + k - 48) ≡ k
    shift k = omega arith

    low : (k : ℕ) → k / 10 * 10 + (48 + k % 10 - 48) ≡ k
    low k = omega arith

-- The text of a number begins with a digit.
show-head :
    (f n : ℕ) → n < f → (c : ℕ) × (cs : Bytes) × (show_from f n ≡ c ∷ cs) × (48 ≤ c) × (c ≤ 57)
unfolding show_from
show-head zero n h = absurd (omega arith)
show-head (suc f) n h = elim (Bool-cases (ltb n 10)) [
  | inl small ↦ (48 + n, [], rw small, omega arith, ground arith)
  | inr large ↦
      let (c, cs, e, lo, hi) = show-head f (n / 10) (ground arith) in
      (c, cs ++ (48 + n % 10) ∷ [], rw (large, e), lo, hi)
]

-- What may follow a number so that it ends there: nothing, or a byte that is no digit.
abbrev pub EndsNumber : Bytes → Type 0
EndsNumber [] = Unit
EndsNumber (c ∷ cs) = is_digit c ≡ false

read_digits_end : (n : ℕ) (ys : Bytes) → EndsNumber ys → read_digits n ys ≡ n
unfolding read_digits
read_digits_end n [] h = refl
read_digits_end n (c ∷ cs) h = rw h

read-show_nat : (n : ℕ) (ys : Bytes) → EndsNumber ys → read_digits 0 (show_nat n ++ ys) ≡ n
unfolding show_nat
read-show_nat n ys h = read-show (suc n) n ys (omega arith) ∙ read_digits_end n ys h

atoi_of_digit :
    (c : ℕ) (cs : Bytes) → 48 ≤ c → c ≤ 57 → atoi (c ∷ cs) ≡ pos (read_digits 0 (c ∷ cs))
unfolding atoi
atoi_of_digit c cs lo hi = ground arith

atoi-show_nat : (n : ℕ) (ys : Bytes) → EndsNumber ys → atoi (show_nat n ++ ys) ≡ pos n
atoi-show_nat n ys h =
    let (c, cs, e, lo, hi) = show-head (suc n) n (omega arith) in
    let e' : show_nat n ≡ c ∷ cs = unfold show_nat in e in
    let back : read_digits 0 (c ∷ cs ++ ys) ≡ n = rw e' at (read-show_nat n ys h) in
    rw e' (atoi_of_digit c (cs ++ ys) lo hi ∙ ap pos back)

atoi_of_minus : (s : Bytes) → atoi (b'-' ∷ s) ≡ negated (read_digits 0 s)
unfolding atoi
atoi_of_minus s = refl

-- `atoi` reads back what `%d` has printed, whatever follows that is no digit.
pub atoi-fmt_int : (i : ℤ) (ys : Bytes) → EndsNumber ys → atoi (fmt_int i ++ ys) ≡ i
unfolding fmt_int
atoi-fmt_int (pos n) ys h = atoi-show_nat n ys h
atoi-fmt_int (negsuc n) ys h =
    atoi_of_minus (show_nat (suc n) ++ ys) ∙ ap negated (read-show_nat (suc n) ys h)

pub atoi_whole : (i : ℤ) → atoi (fmt_int i) ≡ i
atoi_whole i = ap atoi (sym (append-nil (fmt_int i))) ∙ atoi-fmt_int i [] tt

-- An `int` as an `unsigned short`.
unfoldable pub to_port : ℤ → ℕ
to_port (pos n) = n % 65536
to_port (negsuc n) = 65535 - n % 65536

pub port_back : (n : ℕ) → n < 65536 → to_port (atoi (fmt_int (pos n))) ≡ n
unfolding to_port
port_back n h = ap to_port (atoi_whole (pos n)) ∙ omega arith

-- 10 to a power.
abbrev pub pow10 : ℕ → ℕ
pow10 zero = 1
pow10 (suc k) = 10 * pow10 k

length-show_from : (k f n : ℕ) → n < pow10 (suc k) → length (show_from f n) ≤ suc k
unfolding show_from
length-show_from k zero n h = omega arith
length-show_from zero (suc f) n h =
    let small : ltb n 10 ≡ true = ground arith in rw small (omega arith)
length-show_from (suc k) (suc f) n h =
    let rest = length-show_from k f (n / 10) (omega arith) in
    let long = length-append (show_from f (n / 10)) ((48 + n % 10) ∷ []) in
    elim (Bool-cases (ltb n 10)) [
      | inl small ↦ rw small (omega arith)
      | inr big ↦ rw big (omega (arith, long, rest))
    ]

-- A number below 10^(k + 1) has k + 1 digits at most.
pub length-fmt_int : (k n : ℕ) → n < pow10 (suc k) → length (fmt_int (pos n)) ≤ suc k
unfolding fmt_int show_nat
length-fmt_int k n h = length-show_from k (suc n) n h
