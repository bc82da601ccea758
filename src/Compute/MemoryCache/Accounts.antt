-- ===== src/Compute/MemoryCache/Accounts.antt =====
-- What the cache has left after each operation (src/compute/src/memory_cache.rs).
use inference_mesh.Base.{
  ℕ, ◌+◌, ◌%◌, ◌<◌, ◌≤◌, ◌≡◌, refl, false, ltb, ite, Bool-cases, Option, none, some, Option-cases,
  inl, inr, ◌⊎◌, List, [], ◌∷◌, ℕ_discrete, Error, ok, err, u64_mod, arith,
}
use inference_mesh.Base.HashMap
use inference_mesh.Base.HashMap.{
  HashMap, IsKeyed, get-insert, get-remove, insert-IsKeyed, remove-IsKeyed,
}
use inference_mesh.Compute.MemoryCache.{
  Candle, IsFaithful, MemoryCache, size_bytes, tensor_bytes, reserve, allocate, free, get,
  bytes_left,
}

module _ (candle : Candle) where
  open candle use {DType, Tensor}

  abbrev pub total : HashMap ℕ Tensor → ℕ
  total [] = 0
  total ((h, t) ∷ m) = tensor_bytes candle t + total m

  -- Every handle in use was given out.
  abbrev pub AreGiven : ℕ → HashMap ℕ Tensor → Type 0
  AreGiven counter [] = Unit
  AreGiven counter ((h, t) ∷ m) = (h < counter) × AreGiven counter m

  -- The counter of bytes is the total of the stored tensors' sizes and within the limit.
  pub record IsBalanced (c : MemoryCache candle) : Type 0 where
    pub balanced : c.current_size_bytes ≡ total c.tensors
    pub within : c.current_size_bytes ≤ c.max_size_bytes
    pub keyed : IsKeyed ℕ_discrete c.tensors
    pub given : AreGiven c.handle_counter c.tensors

  absent :
      (counter : ℕ) (m : HashMap ℕ Tensor)
      → AreGiven counter m
      → HashMap.get ℕ_discrete counter m ≡ none
  unfolding HashMap.get
  absent counter [] h = refl
  absent counter ((j, t) ∷ m) (lt, h) = ground (arith, absent counter m h)

  AreGiven-insert :
      (counter : ℕ) (t : Tensor) (m : HashMap ℕ Tensor)
      → AreGiven counter m
      → AreGiven (counter + 1) (HashMap.insert ℕ_discrete counter t m)
  unfolding HashMap.insert
  AreGiven-insert counter t [] h = (omega arith, tt)
  AreGiven-insert counter t ((j, u) ∷ m) (lt, h) = ground (arith, AreGiven-insert counter t m h)

  AreGiven-remove :
      (counter k : ℕ) (m : HashMap ℕ Tensor)
      → AreGiven counter m
      → AreGiven counter (HashMap.remove ℕ_discrete k m)
  unfolding HashMap.remove
  AreGiven-remove counter k [] h = tt
  AreGiven-remove counter k ((j, u) ∷ m) (lt, h) = ground (arith, AreGiven-remove counter k m h)

  pub total-insert :
      (k : ℕ) (t : Tensor) (m : HashMap ℕ Tensor)
      → HashMap.get ℕ_discrete k m ≡ none
      → total (HashMap.insert ℕ_discrete k t m) ≡ tensor_bytes candle t + total m
  unfolding HashMap.insert HashMap.get
  total-insert k t [] h = omega arith
  total-insert k t ((j, u) ∷ m) h = ground (arith, total-insert k t m)

  total-remove_absent :
      (k : ℕ) (m : HashMap ℕ Tensor)
      → HashMap.get ℕ_discrete k m ≡ none
      → total (HashMap.remove ℕ_discrete k m) ≡ total m
  unfolding HashMap.remove HashMap.get
  total-remove_absent k [] h = refl
  total-remove_absent k ((j, u) ∷ m) h = ground (arith, total-remove_absent k m)

  pub total-remove :
      (k : ℕ) (t : Tensor) (m : HashMap ℕ Tensor)
      → IsKeyed ℕ_discrete m
      → HashMap.get ℕ_discrete k m ≡ some t
      → total m ≡ tensor_bytes candle t + total (HashMap.remove ℕ_discrete k m)
  unfolding HashMap.remove HashMap.get
  total-remove k t [] keyed h = cc
  total-remove k t ((j, u) ∷ m) (new, keyed) h =
      ground (arith, total-remove k t m keyed, total-remove_absent k m)

  -- The request is small enough that no sum of the code wraps, and handles are left.
  pub record IsModest (c : MemoryCache candle) (shape : List ℕ) (d : DType) : Type 0 where
    pub small : c.max_size_bytes + size_bytes candle shape d < u64_mod
    pub more_handles : c.handle_counter + 1 < u64_mod

  -- A new tensor stands under a new handle, it takes its bytes, and the other handles keep theirs.
  pub record IsStored (c c' : MemoryCache candle) (shape : List ℕ) (d : DType) (t : Tensor)
      : Type 0 where
    pub made : candle.zeros shape d ≡ some t
    pub was_free : get candle c c.handle_counter ≡ none
    pub lookup :
        (h : ℕ) → get candle c' h ≡ ite (ℕ_discrete c.handle_counter h) (some t) (get candle c h)
    pub taken : bytes_left candle c ≡ size_bytes candle shape d + bytes_left candle c'
    pub still : IsBalanced c'

  -- No tensor was made, but its bytes are gone: the tensors are the same and less is left.
  pub record IsLeaked (c c' : MemoryCache candle) (shape : List ℕ) (d : DType) : Type 0 where
    pub refused : candle.zeros shape d ≡ none
    pub same_tensors : c'.tensors ≡ c.tensors
    pub lost : bytes_left candle c ≡ size_bytes candle shape d + bytes_left candle c'

  reserved :
      (c : MemoryCache candle) (shape : List ℕ) (d : DType)
      → c.current_size_bytes ≤ c.max_size_bytes
      → IsModest c shape d
      → ((reserve candle c (size_bytes candle shape d)).current_size_bytes
          ≡ c.current_size_bytes + size_bytes candle shape d)
        × ((reserve candle c (size_bytes candle shape d)).handle_counter ≡ c.handle_counter + 1)
  reserved c shape d within s = (omega (arith, within, s.small), omega (arith, s.more_handles))

  abbrev stored : MemoryCache candle → List ℕ → DType → Tensor → MemoryCache candle
  stored c shape d t = record (reserve candle c (size_bytes candle shape d)) {
    tensors = HashMap.insert ℕ_discrete c.handle_counter t c.tensors;
  }

  stored-IsBalanced :
      (c : MemoryCache candle) (shape : List ℕ) (d : DType) (t : Tensor)
      → IsFaithful candle
      → IsBalanced c
      → IsModest c shape d
      → size_bytes candle shape d ≤ bytes_left candle c
      → candle.zeros shape d ≡ some t
      → IsBalanced (stored c shape d t)
  unfolding bytes_left
  stored-IsBalanced c shape d t f b s fits made =
      let (sized, counted) = reserved c shape d b.within s in
      let (elems, typed) = f.zeros_lem shape d t made in
      let new = absent c.handle_counter c.tensors b.given in
      let bytes : tensor_bytes candle t ≡ size_bytes candle shape d = rw (elems, typed) refl in
      record {
        balanced =
            omega (arith, sized, b.balanced, bytes, total-insert c.handle_counter t c.tensors new);
        within = omega (arith, sized, fits, b.within);
        keyed = insert-IsKeyed ℕ_discrete c.handle_counter t c.tensors b.keyed;
        given = rw counted (AreGiven-insert c.handle_counter t c.tensors b.given);
      }

  stored-IsStored :
      (c : MemoryCache candle) (shape : List ℕ) (d : DType) (t : Tensor)
      → IsFaithful candle
      → IsBalanced c
      → IsModest c shape d
      → size_bytes candle shape d ≤ bytes_left candle c
      → candle.zeros shape d ≡ some t
      → IsStored c (stored c shape d t) shape d t
  unfolding get bytes_left
  stored-IsStored c shape d t f b s fits made = record {
    made = made;
    was_free = absent c.handle_counter c.tensors b.given;
    lookup = λ h. get-insert ℕ_discrete c.handle_counter h t c.tensors;
    taken = omega (arith, (reserved c shape d b.within s).0, fits, b.within);
    still = stored-IsBalanced c shape d t f b s fits made;
  }

  -- Where a tensor of zeros has the asked size, the cache is balanced, the limit and the asked size
  -- together stay below 2 ^ 64, and so does the next handle: an allocation that does not fit is
  -- refused and changes nothing. One that fits stores a tensor of zeros under a handle that was not
  -- in use, and the cache stays balanced; or candle makes no tensor, and then the bytes are lost
  -- although nothing is stored.
  pub allocate_lem :
      (c : MemoryCache candle) (shape : List ℕ) (d : DType)
      → IsFaithful candle
      → IsBalanced c
      → IsModest c shape d
      → ((bytes_left candle c < size_bytes candle shape d)
          × (allocate candle c shape d ≡ (c, err Error.cache_full)))
        ⊎ ((size_bytes candle shape d ≤ bytes_left candle c)
            × (((c' : MemoryCache candle) × (t : Tensor) × (allocate candle c shape d
                    ≡ (c', ok c.handle_counter))
                  × IsStored c c' shape d t)
                ⊎ ((c' : MemoryCache candle) × (allocate candle c shape d
                      ≡ (c', err Error.tensor_error))
                    × IsLeaked c c' shape d)))
  unfolding allocate bytes_left get
  allocate_lem c shape d f b s =
      elim (Bool-cases (ltb (bytes_left candle c) (size_bytes candle shape d))) [
        | inl full ↦ inl (ground arith, ground (arith, b.within, s.small))
        | inr fits ↦
            let open_limit : ltb c.max_size_bytes
                  ((c.current_size_bytes + size_bytes candle shape d) % u64_mod)
                ≡ false =
              ground (arith, b.within, s.small) in
            let room : size_bytes candle shape d ≤ bytes_left candle c = ground arith in
            inr (
              room,
              elim (Option-cases (candle.zeros shape d)) [
                | inl failed ↦ inr (
                  reserve candle c (size_bytes candle shape d),
                  rw (open_limit, allocate) (rw failed refl),
                  record {
                    refused = failed;
                    same_tensors = refl;
                    lost = omega (arith, (reserved c shape d b.within s).0, room, b.within);
                  },
                )
                | inr (t, made) ↦ inl (
                  stored c shape d t,
                  t,
                  rw (open_limit, allocate) (rw made refl),
                  stored-IsStored c shape d t f b s room made,
                )
              ],
            )
      ]

  -- What releasing a handle gives back, by what stood under it.
  abbrev pub IsReturned : MemoryCache candle → ℕ → Option Tensor → Type 0
  IsReturned c h none = free candle c h ≡ c
  IsReturned c h (some t) =
      bytes_left candle (free candle c h) ≡ tensor_bytes candle t + bytes_left candle c

  -- Releasing a handle in use gives its bytes back and keeps the others; releasing one that is not in
  -- use changes nothing. The cache stays balanced.
  pub free_lem :
      (c : MemoryCache candle) (h : ℕ)
      → IsBalanced c
      → c.max_size_bytes < u64_mod
      → IsBalanced (free candle c h)
        × ((k : ℕ) → get candle (free candle c h) k ≡ ite (ℕ_discrete h k) none (get candle c k))
        × IsReturned c h (get candle c h)
  unfolding free bytes_left get
  free_lem c h b small = elim (Option-cases (HashMap.get ℕ_discrete h c.tensors)) [
    | inl gone ↦ rw (gone, free) (b, λ k. ground (arith, gone), rw (gone, free) refl)
    | inr (t, held) ↦
        let split = total-remove h t c.tensors b.keyed held in
        rw (held, free)
          (
            record {
              balanced = omega (arith, split, b.balanced, b.within, small);
              within = omega (arith, split, b.balanced, b.within, small);
              keyed = remove-IsKeyed ℕ_discrete h c.tensors b.keyed;
              given = AreGiven-remove c.handle_counter h c.tensors b.given;
            },
            λ k. get-remove ℕ_discrete h k c.tensors,
            rw (held, free) (omega (arith, split, b.balanced, b.within, small)),
          )
  ]
