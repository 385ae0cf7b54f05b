-- ===== src/Net/LoopPool.antt =====
-- webserver/EventLoopThreadPool.h and EventLoopThreadPool.cpp: the loops of the worker threads, handed
-- out in turn.
pub mod RoundRobin
use high_performance_chatser.Prelude.{
  ℕ, zero, suc, ◌+◌, Bool, true, false, List, [], ◌∷◌, ◌++◌, Option, some, length, get_elem?, leb,
  if◌then◌else◌,
}

-- A loop is known by a number. `Threads` holds the thread objects only and is left out.
pub record LoopPool : Type 0 where
  pub base_loop : ℕ
  pub started : Bool
  pub num_threads : ℕ
  pub next : ℕ
  pub loops : List ℕ

unfoldable pub new_pool : ℕ → LoopPool
new_pool base = record { base_loop = base; started = false; num_threads = 0; next = 0; loops = [] }

unfoldable pub set_thread_num : ℕ → LoopPool → LoopPool
set_thread_num n p = record p { num_threads = n }

-- The loop of `start`: thread `i` runs the event loop `start_loop i`.
unfoldable pub start_threads : (ℕ → ℕ) → ℕ → ℕ → List ℕ
start_threads start_loop i zero = []
start_threads start_loop i (suc n) = start_loop i ∷ start_threads start_loop (i + 1) n

-- `start`; the callback is called for the base loop if there is no thread, which changes no field.
unfoldable pub start : (ℕ → ℕ) → LoopPool → LoopPool
unfolding start_threads
start start_loop p = record p {
  started = true;
  loops = p.loops ++ start_threads start_loop 0 p.num_threads;
}

-- `none` is an index out of range of `Loops`.
unfoldable pub get_next_loop : LoopPool → Option ℕ × LoopPool
get_next_loop p = elim p.loops [
  | [] ↦ (some p.base_loop, p)
  | l ∷ ls ↦ (
    get_elem? (l ∷ ls) p.next,
    record p { next = if leb (length (l ∷ ls)) (p.next + 1) then 0 else p.next + 1 },
  )
]

unfoldable pub get_all_loops : LoopPool → List ℕ
get_all_loops p = elim p.loops [ [] ↦ p.base_loop ∷ [] | l ∷ ls ↦ l ∷ ls ]

-- The loops of the next `n` connections.
unfoldable pub assign_loops : ℕ → LoopPool → List (Option ℕ)
unfolding get_next_loop
assign_loops zero p = []
assign_loops (suc n) p = let (l, p') = get_next_loop p in l ∷ assign_loops n p'
