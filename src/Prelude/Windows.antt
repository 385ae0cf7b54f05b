-- ===== src/Prelude/Windows.antt =====
-- Arrays of bytes: the part of one between two indices, and what `vector::resize` and `copy` make of it.
use Prim.Native.Nat.{ℕ, zero, suc, ◌+◌, ◌-◌, ◌≤◌}
use mathlib.Core.Path.{◌≡◌, refl, sym, ◌∙◌, ap}
use mathlib.Core.List.{List, [], ◌∷◌, ◌++◌}
use native.Mathlib.Omega.{arith}
use high_performance_chatser.Prelude.Lists.{
  length, take, drop, replicate, length-append, length-take, length-drop, length-replicate,
  take_all, take-append, take-append_le, drop-append_le, drop-drop,
}

-- The standard library on arrays of bytes: `vector::resize`, which pads with zeros, and `copy` of
-- `ds` to position `i`. Past the end `copy` is undefined; `write_at` then extends the list.
unfoldable pub resize : ℕ → List ℕ → List ℕ
resize n xs = take n xs ++ replicate (n - length xs) 0

unfoldable pub write_at : ℕ → List ℕ → List ℕ → List ℕ
write_at i ds xs = take i xs ++ (ds ++ drop (i + length ds) xs)

pub length-resize : (n : ℕ) (xs : List ℕ) → length (resize n xs) ≡ n
unfolding resize
length-resize n xs = omega (
  arith,
  length-append (take n xs) (replicate (n - length xs) 0),
  length-take n xs,
  length-replicate {A = ℕ} (n - length xs) 0,
)

pub length-write_at :
    (i : ℕ) (ds xs : List ℕ) → i + length ds ≤ length xs → length (write_at i ds xs) ≡ length xs
unfolding write_at
length-write_at i ds xs h = omega (
  arith,
  length-append (take i xs) (ds ++ drop (i + length ds) xs),
  length-append ds (drop (i + length ds) xs),
  length-take i xs,
  length-drop (i + length ds) xs,
)

module _ {ℓ} {A : Type ℓ} where
  -- The items from index `r` to below index `w`.
  unfoldable pub window : ℕ → ℕ → List A → List A
  window r w xs = take (w - r) (drop r xs)

  take-nil : (n : ℕ) → take {A = A} n [] ≡ []
  take-nil zero = refl
  take-nil (suc n) = refl

  take-append_add : (n : ℕ) (xs ys : List A) → take (length xs + n) (xs ++ ys) ≡ xs ++ take n ys
  take-append_add n [] ys = ap (λ k. take k ys) (omega arith)
  take-append_add n (x ∷ xs) ys =
      let e : suc (length xs) + n ≡ suc (length xs + n) = omega arith in
      rw e (ap (◌∷◌ x) (take-append_add n xs ys))

  drop-take : (r w : ℕ) (xs : List A) → drop r (take w xs) ≡ take (w - r) (drop r xs)
  drop-take zero w xs = ap (λ k. take k xs) (omega arith)
  drop-take (suc r) zero xs = let e : zero - suc r ≡ zero = omega arith in rw e
  drop-take (suc r) (suc w) [] = sym (take-nil (suc w - suc r))
  drop-take (suc r) (suc w) (x ∷ xs) =
      let e : suc w - suc r ≡ w - r = omega arith in rw e (drop-take r w xs)

  pub length-window : (r w : ℕ) (xs : List A) → w ≤ length xs → length (window r w xs) ≡ w - r
  unfolding window
  length-window r w xs h = omega (arith, length-take (w - r) (drop r xs), length-drop r xs)

  -- Reading on from inside a window drops its first items.
  pub window-add : (r n w : ℕ) (xs : List A) → window (r + n) w xs ≡ drop n (window r w xs)
  unfolding window
  window-add r n w xs =
      let e : w - (r + n) ≡ w - r - n = omega arith in
      rw (e, ← drop-drop r n xs) (sym (drop-take n (w - r) (drop r xs)))

  pub window-empty : (r : ℕ) (xs : List A) → window r r xs ≡ []
  unfolding window
  window-empty r xs = let e : r - r ≡ 0 = omega arith in rw e

-- Growing the array keeps the window.
pub window-resize :
    (r w n : ℕ) (xs : List ℕ)
    → r ≤ w
    → w ≤ length xs
    → length xs ≤ n
    → window r w (resize n xs) ≡ window r w xs
unfolding window resize
window-resize r w n xs hr hw hn =
    rw (take_all n xs hn, drop-append_le r xs (replicate (n - length xs) 0) (omega arith))
      (take-append_le (w - r) (drop r xs) _ (omega (arith, length-drop r xs)))

-- Writing at the window's end extends it by what is written.
pub window-write_at :
    (r w n : ℕ) (ds xs : List ℕ)
    → r ≤ w
    → w ≤ length xs
    → n ≡ w + length ds
    → window r n (write_at w ds xs) ≡ window r w xs ++ ds
unfolding window write_at
window-write_at r w n ds xs hr hw e =
    rw (drop-append_le r (take w xs) tail (omega (arith, length-take w xs)), drop-take r w xs)
      (let size : n - r ≡ length (take (w - r) (drop r xs)) + length ds =
          omega (arith, length-take (w - r) (drop r xs), length-drop r xs) in
        rw size
          (rw (take-append_add (length ds) (take (w - r) (drop r xs)) tail, take-append ds rest)))
  where
    rest : List ℕ
    rest = drop (w + length ds) xs

    tail : List ℕ
    tail = ds ++ rest

-- What is written is the window over it.
pub window-write_at_self :
    (w n : ℕ) (ds xs : List ℕ)
    → w ≤ length xs
    → n ≡ w + length ds
    → window w n (write_at w ds xs) ≡ ds
window-write_at_self w n ds xs hw e =
    window-write_at w w n ds xs (omega arith) hw e ∙ ap (λ p. p ++ ds) (window-empty w xs)
