-- ===== src/Net/LoopPool/RoundRobin.antt =====
-- How the pool spreads connections over the worker loops.
use native.Mathlib.Nat.{mod-eq_of_lt, mod-lt, mod-add-mod, mod_self}
use high_performance_chatser.Prelude.{
  ℕ, zero, suc, ◌+◌, ◌%◌, ◌<◌, ◌≡◌, ◌∙◌, sym, refl, ap, inl, inr, true, List, ◌∷◌, some, arith,
  length, get_elem?, leb, if◌then◌else◌, Bool-cases,
}
use high_performance_chatser.Net.LoopPool.{
  LoopPool, new_pool, set_thread_num, start, start_threads, get_next_loop, assign_loops,
}

-- A started pool by its parts.
abbrev pool : ℕ → ℕ → ℕ → ℕ → List ℕ → LoopPool
pool base threads next l ls = record {
  base_loop = base;
  started = true;
  num_threads = threads;
  next = next;
  loops = l ∷ ls;
}

-- The next index is the next one modulo the number of loops.
next_mod :
    (next len : ℕ) → next < len → (if leb len (next + 1) then 0 else next + 1) ≡ (next + 1) % len
next_mod next len h = elim (Bool-cases (leb len (next + 1))) [
  | inl last ↦
      let e : next + 1 ≡ len = ground arith in rw last (sym (ap (λ k. k % len) e ∙ mod_self len))
  | inr more ↦ rw more (sym (mod-eq_of_lt (ground arith)))
]

assign_loops_lem :
    (base threads n i next l : ℕ) (ls : List ℕ)
    → next < length (l ∷ ls)
    → i < n
    → get_elem? (assign_loops n (pool base threads next l ls)) i
      ≡ some (get_elem? (l ∷ ls) ((next + i) % length (l ∷ ls)))
unfolding assign_loops get_next_loop
assign_loops_lem base threads zero i next l ls h k = absurd (omega arith)
assign_loops_lem base threads (suc n) zero next l ls h k =
    ap (λ j. some (get_elem? (l ∷ ls) j))
      (sym (mod-eq_of_lt h) ∙ ap (λ k. k % length (l ∷ ls)) (omega arith))
assign_loops_lem base threads (suc n) (suc i) next l ls h k =
    let len : ℕ = length (l ∷ ls) in
    let e = next_mod next len h in
    let rest =
      assign_loops_lem base threads n i ((next + 1) % len) l ls (mod-lt (next + 1) (omega arith))
        (omega arith) in
    rw e rest
    ∙ ap (λ j. some (get_elem? (l ∷ ls) j))
        (mod-add-mod (next + 1) len i ∙ ap (λ j. j % len) (omega arith))

length-start_threads : (f : ℕ → ℕ) (j n : ℕ) → length (start_threads f j n) ≡ n
unfolding start_threads
length-start_threads f j zero = refl
length-start_threads f j (suc n) = ap suc (length-start_threads f (j + 1) n)

get_elem-start_threads :
    (f : ℕ → ℕ) (j n i : ℕ) → i < n → get_elem? (start_threads f j n) i ≡ some (f (j + i))
unfolding start_threads
get_elem-start_threads f j zero i h = absurd (omega arith)
get_elem-start_threads f j (suc n) zero h = ap (λ k. some (f k)) (omega arith)
get_elem-start_threads f j (suc n) (suc i) h =
    get_elem-start_threads f (j + 1) n i (omega arith) ∙ ap (λ k. some (f k)) (omega arith)

-- With one or more threads, the connections go to the loops of the threads in turn: number `i` to
-- the loop of thread `i` modulo the number of threads, and no access is out of range.
pub round_robin :
    (start_loop : ℕ → ℕ) (base threads n i : ℕ)
    → i < n
    → get_elem? (assign_loops n (start start_loop (set_thread_num (suc threads) (new_pool base)))) i
      ≡ some (some (start_loop (i % suc threads)))
unfolding start set_thread_num new_pool start_threads
round_robin start_loop base threads n i h =
    let ls = start_threads start_loop 1 threads in
    let len : length (start_loop 0 ∷ ls) ≡ suc threads =
      ap suc (length-start_threads start_loop 1 threads) in
    let zero_add : (m : ℕ) → 0 + m ≡ m = λ m. omega arith in
    assign_loops_lem base (suc threads) n i 0 (start_loop 0) ls (omega arith) h
    ∙ ap (λ m. some (get_elem? (start_loop 0 ∷ ls) m))
        (ap (λ k. k % length (start_loop 0 ∷ ls)) (zero_add i) ∙ ap (λ m. i % m) len)
    ∙ ap some (
        get_elem-start_threads start_loop 0 (suc threads) (i % suc threads) (mod-lt i (omega arith))
        ∙ ap (λ m. some (start_loop m)) (zero_add (i % suc threads)))
