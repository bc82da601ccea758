-- ===== src/Compute/MemoryCache.antt =====
-- src/compute/src/memory_cache.rs: tensors under handles, within a limit of bytes. Each operation is
-- one call that no other thread interrupts.
pub mod Accounts
pub mod Threads
use inference_mesh.Base.{
  ℕ, ◌+◌, ◌-◌, ◌*◌, ◌%◌, ◌≡◌, if◌then◌else◌, ltb, Option, none, some, List, [], ◌∷◌, ℕ_discrete,
  Result, Error, ok, err, u64_mod,
}
use inference_mesh.Base.HashMap
use inference_mesh.Base.HashMap.{HashMap}

-- What the cache takes from candle. `zeros` makes a tensor on the cache's device, or fails.
pub record Candle : Type 1 where
  pub DType : Type 0
  pub Tensor : Type 0
  pub size_in_bytes : DType → ℕ
  pub zeros : List ℕ → DType → Option Tensor
  pub elem_count : Tensor → ℕ
  pub dtype : Tensor → DType

-- `iter().product::<usize>()`.
unfoldable pub product_from : ℕ → List ℕ → ℕ
product_from acc [] = acc
product_from acc (n ∷ shape) = product_from (acc * n % u64_mod) shape

abbrev pub product : List ℕ → ℕ
product shape = product_from 1 shape

-- A tensor of zeros has the shape's number of elements and the type that was asked for.
pub record IsFaithful (candle : Candle) : Type 0 where
  pub zeros_lem :
      (shape : List ℕ) (d : candle.DType) (t : candle.Tensor)
      → candle.zeros shape d ≡ some t
      → (candle.elem_count t ≡ product shape) × (candle.dtype t ≡ d)

module _ (candle : Candle) where
  open candle use {DType, Tensor}

  pub record MemoryCache : Type 0 where
    pub max_size_bytes : ℕ
    pub current_size_bytes : ℕ
    pub tensors : HashMap ℕ Tensor
    pub handle_counter : ℕ

  unfoldable pub new : ℕ → MemoryCache
  new max_size_bytes = record {
    max_size_bytes = max_size_bytes;
    current_size_bytes = 0;
    tensors = [];
    handle_counter = 1;
  }

  abbrev pub size_bytes : List ℕ → DType → ℕ
  size_bytes shape d = product shape * candle.size_in_bytes d % u64_mod

  -- `elem_count() * dtype().size_in_bytes()` of a tensor.
  abbrev pub tensor_bytes : Tensor → ℕ
  tensor_bytes t = candle.elem_count t * candle.size_in_bytes (candle.dtype t) % u64_mod

  -- The two `fetch_add`s.
  abbrev pub reserve : MemoryCache → ℕ → MemoryCache
  reserve c size = record c {
    current_size_bytes = (c.current_size_bytes + size) % u64_mod;
    handle_counter = (c.handle_counter + 1) % u64_mod;
  }

  unfoldable pub allocate : MemoryCache → List ℕ → DType → MemoryCache × Result ℕ
  allocate c shape d =
      let size = size_bytes shape d in
      let handle = c.handle_counter in
      let reserved = reserve c size in
      if ltb c.max_size_bytes ((c.current_size_bytes + size) % u64_mod)
      then (c, err Error.cache_full)
      else elim (candle.zeros shape d) [
        | none ↦ (reserved, err Error.tensor_error)
        | some t ↦
            (record reserved { tensors = HashMap.insert ℕ_discrete handle t c.tensors }, ok handle)
      ]

  -- `fetch_sub` wraps.
  unfoldable pub free : MemoryCache → ℕ → MemoryCache
  free c handle = elim (HashMap.get ℕ_discrete handle c.tensors) [
    | none ↦ c
    | some t ↦ record c {
      tensors = HashMap.remove ℕ_discrete handle c.tensors;
      current_size_bytes = (c.current_size_bytes + (u64_mod - tensor_bytes t)) % u64_mod;
    }
  ]

  unfoldable pub get : MemoryCache → ℕ → Option Tensor
  get c handle = HashMap.get ℕ_discrete handle c.tensors

  unfoldable pub bytes_left : MemoryCache → ℕ
  bytes_left c = c.max_size_bytes - c.current_size_bytes
