-- ===== src/Tests/Memory.antt =====
-- A memory cache of 100 bytes, in which a tensor is its number of elements.
use inference_mesh.Base.{
  ℕ, ◌<◌, ◌≤◌, ◌≡◌, refl, ◌⊎◌, none, some, [], ◌∷◌, ite, ℕ_discrete, Error, ok, err, arith,
}
use inference_mesh.Base.HashMap
use inference_mesh.Compute.MemoryCache.{
  Candle, IsFaithful, MemoryCache, product, size_bytes, allocate, free, get, bytes_left,
  product_from,
}
use inference_mesh.Compute.MemoryCache.Accounts.{
  IsBalanced, IsStored, IsLeaked, IsReturned, allocate_lem, free_lem,
}

abbrev pub candle : Candle
candle = record {
  DType = ℕ;
  Tensor = ℕ × ℕ;
  size_in_bytes = λ d. d;
  zeros = λ shape d. some (product shape, d);
  elem_count = λ t. t.0;
  dtype = λ t. t.1;
}

pub candle-IsFaithful : IsFaithful candle
candle-IsFaithful = record { zeros_lem = λ shape d t e. (cc, cc) }

-- Six elements of four bytes stand under the handle 1.
abbrev cache : MemoryCache candle
cache = record {
  max_size_bytes = 100;
  current_size_bytes = 24;
  tensors = (1, (6, 4)) ∷ [];
  handle_counter = 2;
}

cache-IsBalanced : IsBalanced candle cache
unfolding HashMap.get
cache-IsBalanced = record {
  balanced = refl;
  within = omega arith;
  keyed = (refl, tt);
  given = (omega arith, tt);
}

size_lem : size_bytes candle (3 ∷ 5 ∷ []) 2 ≡ 30
unfolding product_from
size_lem = refl

allocate_lem_example :
    ((bytes_left candle cache < size_bytes candle (3 ∷ 5 ∷ []) 2)
      × (allocate candle cache (3 ∷ 5 ∷ []) 2 ≡ (cache, err Error.cache_full)))
    ⊎ ((size_bytes candle (3 ∷ 5 ∷ []) 2 ≤ bytes_left candle cache)
        × (((c' : MemoryCache candle) × (t : ℕ × ℕ) × (allocate candle cache (3 ∷ 5 ∷ []) 2
                ≡ (c', ok 2))
              × IsStored candle cache c' (3 ∷ 5 ∷ []) 2 t)
            ⊎ ((c' : MemoryCache candle) × (allocate candle cache (3 ∷ 5 ∷ []) 2
                  ≡ (c', err Error.tensor_error))
                × IsLeaked candle cache c' (3 ∷ 5 ∷ []) 2)))
allocate_lem_example =
    allocate_lem candle cache (3 ∷ 5 ∷ []) 2 candle-IsFaithful cache-IsBalanced
      (record { small = rw size_lem (omega arith); more_handles = omega arith })

free_lem_example :
    IsBalanced candle (free candle cache 1)
    × ((k : ℕ)
        → get candle (free candle cache 1) k ≡ ite (ℕ_discrete 1 k) none (get candle cache k))
    × IsReturned candle cache 1 (get candle cache 1)
free_lem_example = free_lem candle cache 1 cache-IsBalanced (omega arith)
