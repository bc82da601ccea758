-- ===== src/Tests/Threads.antt =====
-- Calls of three threads on a memory cache of 100 bytes.
use inference_mesh.Base.{ℕ, List, [], ◌∷◌, arith}
use inference_mesh.Compute.MemoryCache.{product_from}
use inference_mesh.Compute.MemoryCache.Threads.{Threads, run}
use inference_mesh.Compute.MemoryCache.Threads.Schedules.{
  IsConsistent, Request, to_allocate, to_free, start, start_two, run-IsConsistent,
}
use inference_mesh.Tests.Memory.{candle, candle-IsFaithful}

-- The second thread draws its handle first, and the third takes that tensor away.
abbrev requests : List (Request candle)
requests = to_allocate (3 ∷ 5 ∷ []) 2 ∷ to_allocate (4 ∷ []) 4 ∷ to_free 1 ∷ []

abbrev turns : List ℕ
turns = 0 ∷ 1 ∷ 1 ∷ 1 ∷ 0 ∷ 1 ∷ 1 ∷ 2 ∷ 0 ∷ 0 ∷ 0 ∷ 2 ∷ 0 ∷ []

run-IsConsistent_example : IsConsistent candle (run candle (start candle 100 requests) turns)
unfolding product_from
run-IsConsistent_example =
    run-IsConsistent candle candle-IsFaithful 100 requests turns (omega arith) (omega arith)

abbrev two_calls : List ℕ → Threads candle
two_calls turns = run candle (start_two candle 100 (3 ∷ 5 ∷ []) (5 ∷ 3 ∷ []) 4) turns

-- The second call draws its handle first.
abbrev mixed : List ℕ
mixed = 1 ∷ 1 ∷ 0 ∷ 1 ∷ 0 ∷ 0 ∷ 1 ∷ 0 ∷ []
