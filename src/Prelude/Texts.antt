-- ===== src/Prelude/Texts.antt =====
-- `std::string::find` of one character, and `substr`.
use Prim.Native.Nat.{ℕ, suc, ◌+◌}
use mathlib.Core.Path.{◌≡◌, refl, ap, ◌∙◌}
use mathlib.Core.Bool.{false}
use mathlib.Core.List.{List, [], ◌∷◌, ◌++◌}
use mathlib.Core.Option.{Option, none, some, map}
use native.Mathlib.Omega.{arith}
use high_performance_chatser.Prelude.Tests.{eqb, eqb_iff, if◌then◌else◌}
use high_performance_chatser.Prelude.Keys.{Bytes}
use high_performance_chatser.Prelude.Lists.{length, take, drop, All}

-- `none` is `npos`.
unfoldable pub find : ℕ → Bytes → Option ℕ
find c [] = none
find c (x ∷ xs) = let rest = map suc (find c xs) in if eqb x c then some 0 else rest

abbrev pub substr : ℕ → ℕ → Bytes → Bytes
substr pos len xs = take len (drop pos xs)

-- `c` does not occur.
abbrev pub Lacks : ℕ → Bytes → Type 0
Lacks c = All (λ x. eqb x c ≡ false)

-- The first occurrence, after a part without one.
pub find-append : (c : ℕ) (xs ys : Bytes) → Lacks c xs → find c (xs ++ c ∷ ys) ≡ some (length xs)
unfolding find
find-append c [] ys h = ground (arith, eqb_iff c c)
find-append c (x ∷ xs) ys h = rw (h.0) (rw (find-append c xs ys h.1))

pub find-none : (c : ℕ) (xs : Bytes) → Lacks c xs → find c xs ≡ none
unfolding find
find-none c [] h = refl
find-none c (x ∷ xs) h = rw (h.0) (rw (find-none c xs h.1))

pub take-length-append {ℓ} : {A : Type ℓ} (xs ys : List A) → take (length xs) (xs ++ ys) ≡ xs
take-length-append [] ys = refl
take-length-append (x ∷ xs) ys = rw (take-length-append xs ys)

pub drop_past : (xs : Bytes) (c : ℕ) (ys : Bytes) → drop (length xs + 1) (xs ++ c ∷ ys) ≡ ys
drop_past [] c ys = refl
drop_past (x ∷ xs) c ys =
    let e : suc (length xs) + 1 ≡ suc (length xs + 1) = omega arith in
    ap (λ n. drop n (x ∷ xs ++ c ∷ ys)) e ∙ drop_past xs c ys
