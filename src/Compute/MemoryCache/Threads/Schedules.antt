-- ===== src/Compute/MemoryCache/Threads/Schedules.antt =====
-- The accounts of the memory cache for every order in which the calls of its threads move, and what
-- two calls can do to its limit (src/compute/src/memory_cache.rs).
use inference_mesh.Base.{
  ℕ, zero, suc, ◌+◌, ◌<◌, ◌≡◌, refl, sym, ◌∙◌, map, Bool, false, List, [], ◌∷◌, u64_mod, arith,
}
use inference_mesh.Base.HashMap
use inference_mesh.Compute.MemoryCache
use inference_mesh.Compute.MemoryCache.{Candle, IsFaithful, MemoryCache}
use inference_mesh.Compute.MemoryCache.Threads.{
  Call, allocating, stored, freeing, Threads, turn, run,
}
use inference_mesh.Compute.MemoryCache.Threads.Counts.{
  owed, ahead, draws, drawn, holds, sum, Agrees, move_agrees,
}

module _ (candle : Candle) where
  open candle use {DType, Tensor}

  Agrees-same :
      {c : MemoryCache candle} {locked : Bool} {o a w l o' a' w' l' : ℕ} {ds ds' : ℕ → ℕ}
      → Agrees candle c locked o a w l ds
      → o ≡ o'
      → a ≡ a'
      → w ≡ w'
      → l ≡ l'
      → ((h : ℕ) → ds h ≡ ds' h)
      → Agrees candle c locked o' a' w' l' ds'
  Agrees-same ok eo ea ew el es = record {
    balanced = omega (arith, ok.balanced, eo);
    few_bytes = omega (arith, ok.few_bytes, ea);
    few_handles = omega (arith, ok.few_handles, ew);
    keyed = ok.keyed;
    once = λ h. omega (arith, ok.once h, es h);
    given = λ h above. omega (arith, ok.given h above, es h);
    exclusive = sym el ∙ ok.exclusive;
  }

  -- The accounts with some calls and others that come to the sums.
  abbrev AgreesWith :
      MemoryCache candle → Bool → List (Call candle) → (o a w l : ℕ) → (ℕ → ℕ) → Type 0
  AgreesWith c locked calls o a w l ds =
      Agrees candle c locked (sum candle (owed candle) calls + o)
        (sum candle (ahead candle) calls + a) (sum candle (draws candle) calls + w)
        (sum candle (holds candle) calls + l) (λ h. sum candle (drawn candle h) calls + ds h)

  abbrev Kept : Threads candle → (o a w l : ℕ) → (ℕ → ℕ) → Type 0
  Kept s o a w l ds = AgreesWith s.cache s.locked s.calls o a w l ds

  turn_agrees :
      IsFaithful candle
      → (c : MemoryCache candle) (locked : Bool) (calls : List (Call candle)) (i o a w l : ℕ)
        (ds : ℕ → ℕ)
      → AgreesWith c locked calls o a w l ds
      → Kept (turn candle c locked calls i) o a w l ds
  unfolding turn
  turn_agrees f c locked [] i o a w l ds ok = ok
  turn_agrees f c locked (call ∷ calls) zero o a w l ds ok =
      Agrees-same
        (move_agrees candle f c locked call (sum candle (owed candle) calls + o)
          (sum candle (ahead candle) calls + a) (sum candle (draws candle) calls + w)
          (sum candle (holds candle) calls + l) (λ h. sum candle (drawn candle h) calls + ds h)
          (Agrees-same ok (omega arith) (omega arith) (omega arith) (omega arith)
            (λ h. omega arith)))
        (omega arith) (omega arith) (omega arith) (omega arith) (λ h. omega arith)
  turn_agrees f c locked (call ∷ calls) (suc i) o a w l ds ok =
      Agrees-same
        (turn_agrees f c locked calls i (owed candle call + o) (ahead candle call + a)
          (draws candle call + w) (holds candle call + l) (λ h. drawn candle h call + ds h)
          (Agrees-same ok (omega arith) (omega arith) (omega arith) (omega arith)
            (λ h. omega arith)))
        (omega arith) (omega arith) (omega arith) (omega arith) (λ h. omega arith)

  -- The bytes that are counted are those of the stored tensors, of the calls under way and of those
  -- that found no tensor; every handle belongs to one tensor or to one call that makes one; and the
  -- lock is held by one call at most.
  abbrev pub IsConsistent : Threads candle → Type 0
  IsConsistent s = Kept s 0 0 0 0 (λ h. 0)

  keep_running :
      IsFaithful candle
      → (s : Threads candle) (schedule : List ℕ) → IsConsistent s
      → IsConsistent (run candle s schedule)
  unfolding run
  keep_running f s [] ok = ok
  keep_running f s (i ∷ schedule) ok =
      keep_running f (turn candle s.cache s.locked s.calls i) schedule
        (turn_agrees f s.cache s.locked s.calls i 0 0 0 0 (λ h. 0) ok)

  -- A call that a thread makes.
  pub data Request : Type 0 where
    to_allocate : List ℕ → DType → Request
    to_free : ℕ → Request

  abbrev pub begin : Request → Call candle
  begin (to_allocate shape d) = allocating shape d
  begin (to_free handle) = freeing handle

  sums_new :
      (requests : List Request)
      → (sum candle (owed candle) (map begin requests) ≡ 0)
        × (sum candle (holds candle) (map begin requests) ≡ 0)
        × ((h : ℕ) → sum candle (drawn candle h) (map begin requests) ≡ 0)
  sums_new [] = (refl, refl, λ h. refl)
  sums_new (to_allocate shape d ∷ requests) =
      let (bytes, lock, handles) = sums_new requests in
      (omega (arith, bytes), omega (arith, lock), λ h. omega (arith, handles h))
  sums_new (to_free handle ∷ requests) =
      let (bytes, lock, handles) = sums_new requests in
      (omega (arith, bytes), omega (arith, lock), λ h. omega (arith, handles h))

  -- A new cache and calls that have not moved yet.
  abbrev pub start : ℕ → List Request → Threads candle
  start max_size_bytes requests = record {
    cache = MemoryCache.new candle max_size_bytes;
    locked = false;
    calls = map begin requests;
  }

  -- Where a tensor of zeros has the asked size, in whatever order the calls of several threads on a
  -- new cache move, as long as their sizes together, and their number with one more, stay below
  -- 2 ^ 64: the bytes that the cache has counted are always those of the stored tensors, of the calls
  -- under way, and of the calls whose tensor could not be made; every handle belongs to at most one
  -- tensor or one call that makes one, so that no tensor replaces another; and the lock is held by
  -- one call at most.
  pub run-IsConsistent :
      IsFaithful candle
      → (max_size_bytes : ℕ) (requests : List Request) (schedule : List ℕ)
      → sum candle (ahead candle) (map begin requests) < u64_mod
      → sum candle (draws candle) (map begin requests) + 1 < u64_mod
      → IsConsistent (run candle (start max_size_bytes requests) schedule)
  unfolding MemoryCache.new HashMap.get
  run-IsConsistent f max_size_bytes requests schedule small few =
      let (bytes, lock, handles) = sums_new requests in
      keep_running f (start max_size_bytes requests) schedule (record {
        balanced = omega (arith, bytes);
        few_bytes = omega (arith, small);
        few_handles = omega (arith, few);
        keyed = tt;
        once = λ h. omega (arith, handles h);
        given = λ h above. omega (arith, handles h);
        exclusive = omega (arith, lock);
      })

  -- Both calls have stored their tensors, and more bytes are counted than the limit.
  abbrev pub IsOverfull : ℕ → Threads candle → Type 0
  IsOverfull limit s =
      (h k : ℕ) × (s.calls ≡ stored h ∷ stored k ∷ []) × (limit < s.cache.current_size_bytes)

  abbrev pub start_two : ℕ → List ℕ → List ℕ → DType → Threads candle
  start_two max_size_bytes first second d =
      start max_size_bytes (to_allocate first d ∷ to_allocate second d ∷ [])
