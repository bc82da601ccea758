-- ===== src/Compute/MemoryCache/Threads.antt =====
-- src/compute/src/memory_cache.rs: calls of several threads on one cache. A move is what a call does
-- up to its next look at what the threads share: an atomic counter or the locked map.
pub mod Counts
pub mod Limit
pub mod Schedules
use inference_mesh.Base.{
  ℕ, zero, suc, ◌+◌, ◌-◌, ◌%◌, Bool, true, false, if◌then◌else◌, ltb, Option, none, some, List, [],
  ◌∷◌, ℕ_discrete, u64_mod,
}
use inference_mesh.Base.HashMap
use inference_mesh.Compute.MemoryCache.{Candle, MemoryCache, size_bytes, tensor_bytes}

module _ (candle : Candle) where
  open candle use {DType, Tensor}

  -- How far a call has come.
  pub data Call : Type 0 where
    -- `allocate`: before the limit is looked at, after the test, after each of the `fetch_add`s, and
    -- with the tensor.
    allocating passed added : List ℕ → DType → Call
    numbered : List ℕ → DType → ℕ → Call
    made : Tensor → ℕ → Call
    -- Its results.
    stored : ℕ → Call
    refused : Call
    failed : List ℕ → DType → Call
    -- `free`: before the map is locked, with the tensor that it has removed, and at its end.
    freeing : ℕ → Call
    removed : Tensor → Call
    freed : Call

  pub record Threads : Type 0 where
    pub cache : MemoryCache candle
    -- Whether `free` holds the map's lock. `insert` holds it for its one move only.
    pub locked : Bool
    pub calls : List Call

  abbrev Moved : Type 0
  Moved = MemoryCache candle × Bool × Call

  abbrev checked : MemoryCache candle → List ℕ → DType → Call
  checked c shape d =
      if ltb c.max_size_bytes ((c.current_size_bytes + size_bytes candle shape d) % u64_mod)
      then refused
      else passed shape d

  abbrev after_zeros : Option Tensor → List ℕ → DType → ℕ → Call
  after_zeros none shape d handle = failed shape d
  after_zeros (some t) shape d handle = made t handle

  abbrev after_remove : MemoryCache candle → ℕ → Option Tensor → Moved
  after_remove c handle none = (c, false, freed)
  after_remove c handle (some t) =
      (record c { tensors = HashMap.remove ℕ_discrete handle c.tensors }, true, removed t)

  -- A call that waits for the lock, or is over, stays as it is.
  unfoldable pub move : MemoryCache candle → Bool → Call → Moved
  move c locked (allocating shape d) = (c, locked, checked c shape d)
  move c locked (passed shape d) = (
    record c { current_size_bytes = (c.current_size_bytes + size_bytes candle shape d) % u64_mod },
    locked,
    added shape d,
  )
  move c locked (added shape d) = (
    record c { handle_counter = (c.handle_counter + 1) % u64_mod },
    locked,
    numbered shape d c.handle_counter,
  )
  move c locked (numbered shape d handle) =
      (c, locked, after_zeros (candle.zeros shape d) shape d handle)
  move c true (made t handle) = (c, true, made t handle)
  move c false (made t handle) =
      (record c { tensors = HashMap.insert ℕ_discrete handle t c.tensors }, false, stored handle)
  move c locked (stored handle) = (c, locked, stored handle)
  move c locked refused = (c, locked, refused)
  move c locked (failed shape d) = (c, locked, failed shape d)
  move c true (freeing handle) = (c, true, freeing handle)
  move c false (freeing handle) = after_remove c handle (HashMap.get ℕ_discrete handle c.tensors)
  move c locked (removed t) = (
    record c {
      current_size_bytes = (c.current_size_bytes + (u64_mod - tensor_bytes candle t)) % u64_mod;
    },
    false,
    freed,
  )
  move c locked freed = (c, locked, freed)

  -- The call at a place of the list moves.
  unfoldable pub turn : MemoryCache candle → Bool → List Call → ℕ → Threads
  unfolding move
  turn c locked [] i = record { cache = c; locked = locked; calls = [] }
  turn c locked (call ∷ calls) zero =
      let (c', locked', call') = move c locked call in
      record { cache = c'; locked = locked'; calls = call' ∷ calls }
  turn c locked (call ∷ calls) (suc i) =
      let rest = turn c locked calls i in record rest { calls = call ∷ rest.calls }

  -- The calls move in the order of a schedule.
  unfoldable pub run : Threads → List ℕ → Threads
  unfolding turn
  run s [] = s
  run s (i ∷ schedule) = run (turn s.cache s.locked s.calls i) schedule
