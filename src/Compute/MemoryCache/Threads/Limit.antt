-- ===== src/Compute/MemoryCache/Threads/Limit.antt =====
-- Two allocations that have both been let through (src/compute/src/memory_cache.rs).
use inference_mesh.Base.{
  ℕ, zero, suc, ◌+◌, ◌-◌, ◌<◌, ◌≤◌, ◌≡◌, refl, false, some, List, [], ◌∷◌, u64_mod, arith,
}
use inference_mesh.Compute.MemoryCache.{Candle, MemoryCache, size_bytes}
use inference_mesh.Compute.MemoryCache.Threads.{
  Call, passed, added, numbered, made, stored, move, turn, run,
}

-- How often a schedule moves the first call and the second.
abbrev pub first_moves : List ℕ → ℕ
first_moves [] = 0
first_moves (zero ∷ schedule) = suc (first_moves schedule)
first_moves (suc i ∷ schedule) = first_moves schedule

abbrev pub second_moves : List ℕ → ℕ
second_moves [] = 0
second_moves (zero ∷ schedule) = second_moves schedule
second_moves (suc zero ∷ schedule) = suc (second_moves schedule)
second_moves (suc (suc i) ∷ schedule) = second_moves schedule

module _ (candle : Candle) where
  open candle use {DType, Tensor}

  -- A call that was let through, with the bytes that it has counted and the moves that it has left.
  pub data Admitted (shape : List ℕ) (d : DType) : Call candle → ℕ → ℕ → Type 0 where
    has_passed : Admitted shape d (passed shape d) 0 4
    has_added : {n : ℕ} → n ≡ size_bytes candle shape d → Admitted shape d (added shape d) n 3
    has_number :
        {n : ℕ} (handle : ℕ)
        → n ≡ size_bytes candle shape d
        → Admitted shape d (numbered shape d handle) n 2
    has_tensor :
        {n : ℕ} {t : Tensor} (handle : ℕ)
        → n ≡ size_bytes candle shape d
        → Admitted shape d (made t handle) n 1
    is_stored :
        {n : ℕ} (handle : ℕ) → n ≡ size_bytes candle shape d → Admitted shape d (stored handle) n 0

  Admitted-bounded :
      {shape : List ℕ} {d : DType} {call : Call candle} {n left : ℕ}
      → Admitted shape d call n left
      → n ≤ size_bytes candle shape d
  Admitted-bounded has_passed = omega arith
  Admitted-bounded (has_added e) = omega arith
  Admitted-bounded (has_number h e) = omega arith
  Admitted-bounded (has_tensor h e) = omega arith
  Admitted-bounded (is_stored h e) = omega arith

  -- A call moves on, and what the cache has counted is still its bytes and the others'.
  Moves : MemoryCache candle → List ℕ → DType → Call candle → (left others : ℕ) → Type 0
  unfolding move
  Moves c shape d call left others =
      (c' : MemoryCache candle) × (call' : Call candle) × (n' : ℕ) × (move candle c false call
        ≡ (c', false, call'))
      × Admitted shape d call' n' (left - 1)
      × (c'.current_size_bytes ≡ n' + others)

  move-Admitted :
      {shape : List ℕ} {d : DType} {t : Tensor} {call : Call candle} {n left : ℕ}
      (c : MemoryCache candle) (others : ℕ)
      → candle.zeros shape d ≡ some t
      → Admitted shape d call n left
      → c.current_size_bytes ≡ n + others
      → size_bytes candle shape d + others < u64_mod
      → Moves c shape d call left others
  unfolding move Moves
  move-Admitted {shape} {d} c others can has_passed e small =
      (_, _, size_bytes candle shape d, refl, has_added refl, omega (arith, e, small))
  move-Admitted {n} c others can (has_added same) e small =
      (_, _, n, refl, has_number c.handle_counter same, e)
  move-Admitted {t = t} {n = n} c others can (has_number h same) e small =
      (c, made t h, n, rw can refl, has_tensor h same, e)
  move-Admitted {n} c others can (has_tensor h same) e small = (_, _, n, refl, is_stored h same, e)
  move-Admitted {n} c others can (is_stored h same) e small = (_, _, n, refl, is_stored h same, e)

  Admitted-done :
      {shape : List ℕ} {d : DType} {call : Call candle} {n left : ℕ}
      → Admitted shape d call n left
      → left ≡ 0
      → (h : ℕ) × (call ≡ stored h) × (n ≡ size_bytes candle shape d)
  Admitted-done has_passed e = absurd (omega arith)
  Admitted-done (has_added same) e = absurd (omega arith)
  Admitted-done (has_number h same) e = absurd (omega arith)
  Admitted-done (has_tensor h same) e = absurd (omega arith)
  Admitted-done (is_stored h same) e = (h, refl, same)

  -- Both calls come to their ends, in whatever order they move.
  pub run-Admitted :
      (first second : List ℕ) (d : DType) {t u : Tensor}
      → candle.zeros first d ≡ some t
      → candle.zeros second d ≡ some u
      → size_bytes candle first d + size_bytes candle second d < u64_mod
      → (schedule : List ℕ) (c : MemoryCache candle) (x y : Call candle) {n m left more : ℕ}
      → Admitted first d x n left
      → Admitted second d y m more
      → c.current_size_bytes ≡ n + m
      → left ≤ first_moves schedule
      → more ≤ second_moves schedule
      → (h k : ℕ) × ((run candle
            (record { cache = c; locked = false; calls = x ∷ y ∷ [] })
            schedule).calls
          ≡ stored h ∷ stored k ∷ [])
        × ((run candle
              (record { cache = c; locked = false; calls = x ∷ y ∷ [] })
              schedule).cache.current_size_bytes
            ≡ size_bytes candle first d + size_bytes candle second d)
  unfolding run turn Moves
  run-Admitted first second d can able small [] c x y ax ay e done over =
      let (h, first_end, a) = Admitted-done ax (omega arith) in
      let (k, second_end, b) = Admitted-done ay (omega arith) in
      (h, k, rw (first_end, second_end) refl, omega (arith, a, b, e))
  run-Admitted first second d can able small (zero ∷ schedule) c x y {m} ax ay e done over =
      let bound = Admitted-bounded ay in
      let (c', x', n', moved, ax', e') = move-Admitted c m can ax e (omega (arith, bound, small)) in
      rw (run, moved)
        (run-Admitted first second d can able small schedule c' x' y ax' ay e' (omega arith)
          (omega arith))
  run-Admitted first second d can able small (suc zero ∷ schedule) c x y {n} {m} ax ay e done over =
      let bound = Admitted-bounded ax in
      let (c', y', m', moved, ay', e') =
        move-Admitted c n able ay (omega (arith, e)) (omega (arith, bound, small)) in
      rw (run, moved)
        (run-Admitted first second d can able small schedule c' x y' ax ay' (omega (arith, e'))
          (omega arith) (omega arith))
  run-Admitted first second d can able small (suc (suc i) ∷ schedule) c x y ax ay e done over =
      run-Admitted first second d can able small schedule c x y ax ay e done over
