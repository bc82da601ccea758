-- ===== src/Compute/MemoryCache/Threads/Counts.antt =====
-- In whatever order the calls of several threads move, the cache's accounts are kept
-- (src/compute/src/memory_cache.rs).
use inference_mesh.Base.{
  ℕ, ◌+◌, ◌%◌, ◌<◌, ◌≤◌, ◌≡◌, refl, Bool, true, false, if◌then◌else◌, ltb, ite, Bool-cases, Option,
  none, some, Option-cases, inl, inr, List, [], ◌∷◌, ℕ_discrete, u64_mod, arith,
}
use inference_mesh.Base.HashMap
use inference_mesh.Base.HashMap.{
  HashMap, IsKeyed, get-insert, get-remove, insert-IsKeyed, remove-IsKeyed,
}
use inference_mesh.Compute.MemoryCache.{Candle, IsFaithful, MemoryCache, size_bytes, tensor_bytes}
use inference_mesh.Compute.MemoryCache.Accounts.{total, total-insert, total-remove}
use inference_mesh.Compute.MemoryCache.Threads.{
  Call, allocating, passed, added, numbered, made, stored, refused, failed, freeing, removed, freed,
  move,
}

module _ (candle : Candle) where
  open candle use {DType, Tensor}

  -- The bytes that a call has counted and that no stored tensor has.
  abbrev pub owed : Call candle → ℕ
  owed (allocating shape d) = 0
  owed (passed shape d) = 0
  owed (added shape d) = size_bytes candle shape d
  owed (numbered shape d handle) = size_bytes candle shape d
  owed (made t handle) = tensor_bytes candle t
  owed (stored handle) = 0
  owed refused = 0
  owed (failed shape d) = size_bytes candle shape d
  owed (freeing handle) = 0
  owed (removed t) = tensor_bytes candle t
  owed freed = 0

  -- The bytes that it can still count.
  abbrev pub ahead : Call candle → ℕ
  ahead (allocating shape d) = size_bytes candle shape d
  ahead (passed shape d) = size_bytes candle shape d
  ahead (added shape d) = 0
  ahead (numbered shape d handle) = 0
  ahead (made t handle) = 0
  ahead (stored handle) = 0
  ahead refused = 0
  ahead (failed shape d) = 0
  ahead (freeing handle) = 0
  ahead (removed t) = 0
  ahead freed = 0

  -- The handles that it can still draw.
  abbrev pub draws : Call candle → ℕ
  draws (allocating shape d) = 1
  draws (passed shape d) = 1
  draws (added shape d) = 1
  draws (numbered shape d handle) = 0
  draws (made t handle) = 0
  draws (stored handle) = 0
  draws refused = 0
  draws (failed shape d) = 0
  draws (freeing handle) = 0
  draws (removed t) = 0
  draws freed = 0

  -- Whether it holds a handle that no tensor stands under yet, as 0 or 1.
  abbrev pub drawn : ℕ → Call candle → ℕ
  drawn h (allocating shape d) = 0
  drawn h (passed shape d) = 0
  drawn h (added shape d) = 0
  drawn h (numbered shape d handle) = ite (ℕ_discrete handle h) 1 0
  drawn h (made t handle) = ite (ℕ_discrete handle h) 1 0
  drawn h (stored handle) = 0
  drawn h refused = 0
  drawn h (failed shape d) = 0
  drawn h (freeing handle) = 0
  drawn h (removed t) = 0
  drawn h freed = 0

  -- Whether it holds the lock.
  abbrev pub holds : Call candle → ℕ
  holds (allocating shape d) = 0
  holds (passed shape d) = 0
  holds (added shape d) = 0
  holds (numbered shape d handle) = 0
  holds (made t handle) = 0
  holds (stored handle) = 0
  holds refused = 0
  holds (failed shape d) = 0
  holds (freeing handle) = 0
  holds (removed t) = 1
  holds freed = 0

  abbrev pub sum : (Call candle → ℕ) → List (Call candle) → ℕ
  sum f [] = 0
  sum f (call ∷ calls) = f call + sum f calls

  abbrev pub standing : Option Tensor → ℕ
  standing none = 0
  standing (some t) = 1

  abbrev pub stands : ℕ → MemoryCache candle → ℕ
  stands h c = standing (HashMap.get ℕ_discrete h c.tensors)

  -- The accounts of a cache, where the calls come to the given sums.
  pub record Agrees (c : MemoryCache candle) (locked : Bool) (owes comes draw lock : ℕ)
      (draws_of : ℕ → ℕ) : Type 0 where
    pub balanced : c.current_size_bytes ≡ total candle c.tensors + owes
    pub few_bytes : c.current_size_bytes + comes < u64_mod
    pub few_handles : c.handle_counter + draw < u64_mod
    pub keyed : IsKeyed ℕ_discrete c.tensors
    pub once : (h : ℕ) → draws_of h + stands h c ≤ 1
    pub given : (h : ℕ) → c.handle_counter ≤ h → draws_of h + stands h c ≡ 0
    pub exclusive : lock ≡ (if locked then 1 else 0)

  -- The accounts with one call and others that come to the sums.
  abbrev AgreesWith :
      MemoryCache candle → Bool → Call candle → (owes comes draw lock : ℕ) → (ℕ → ℕ) → Type 0
  AgreesWith c locked call owes comes draw lock draws_of =
      Agrees c locked (owed call + owes) (ahead call + comes) (draws call + draw)
        (holds call + lock) (λ h. drawn h call + draws_of h)

  abbrev Kept :
      MemoryCache candle × Bool × Call candle → (owes comes draw lock : ℕ) → (ℕ → ℕ) → Type 0
  Kept m owes comes draw lock draws_of = AgreesWith m.0 m.1 m.2 owes comes draw lock draws_of

  allocating_agrees :
      (c : MemoryCache candle) (locked : Bool) (shape : List ℕ) (d : DType) (o a w l : ℕ)
      (ds : ℕ → ℕ)
      → AgreesWith c locked (allocating shape d) o a w l ds
      → Kept (move candle c locked (allocating shape d)) o a w l ds
  unfolding move
  allocating_agrees c locked shape d o a w l ds ok =
      elim (Bool-cases
        (ltb c.max_size_bytes ((c.current_size_bytes + size_bytes candle shape d) % u64_mod))) [
          | inl full ↦ rw full (record {
            balanced = ok.balanced;
            few_bytes = omega (arith, ok.few_bytes);
            few_handles = omega (arith, ok.few_handles);
            keyed = ok.keyed;
            once = ok.once;
            given = ok.given;
            exclusive = ok.exclusive;
          })
          | inr fits ↦ rw fits ok
        ]

  added_agrees :
      (c : MemoryCache candle) (locked : Bool) (shape : List ℕ) (d : DType) (o a w l : ℕ)
      (ds : ℕ → ℕ)
      → AgreesWith c locked (added shape d) o a w l ds
      → Kept (move candle c locked (added shape d)) o a w l ds
  unfolding move
  added_agrees c locked shape d o a w l ds ok =
      let next : (c.handle_counter + 1) % u64_mod ≡ c.handle_counter + 1 =
        omega (arith, ok.few_handles) in
      record {
        balanced = ok.balanced;
        few_bytes = ok.few_bytes;
        few_handles = omega (arith, ok.few_handles);
        keyed = ok.keyed;
        once = λ h. ground (arith, ok.once h, ok.given h);
        given = λ h above. ground (arith, next, above, ok.given h);
        exclusive = ok.exclusive;
      }

  numbered_agrees :
      IsFaithful candle
      → (c : MemoryCache candle) (locked : Bool) (shape : List ℕ) (d : DType) (h : ℕ) (o a w l : ℕ)
        (ds : ℕ → ℕ)
      → AgreesWith c locked (numbered shape d h) o a w l ds
      → Kept (move candle c locked (numbered shape d h)) o a w l ds
  unfolding move
  numbered_agrees f c locked shape d h o a w l ds ok = elim (Option-cases (candle.zeros shape d)) [
    | inl none_made ↦ rw none_made (record {
      balanced = ok.balanced;
      few_bytes = ok.few_bytes;
      few_handles = ok.few_handles;
      keyed = ok.keyed;
      once = λ k. omega (arith, ok.once k);
      given = λ k above. omega (arith, ok.given k above);
      exclusive = ok.exclusive;
    })
    | inr (t, some_made) ↦
        let (elems, typed) = f.zeros_lem shape d t some_made in
        let bytes : tensor_bytes candle t ≡ size_bytes candle shape d = rw (elems, typed) refl in
        rw some_made (record {
          balanced = omega (arith, ok.balanced, bytes);
          few_bytes = ok.few_bytes;
          few_handles = ok.few_handles;
          keyed = ok.keyed;
          once = ok.once;
          given = ok.given;
          exclusive = ok.exclusive;
        })
  ]

  made_agrees :
      (c : MemoryCache candle) (t : Tensor) (h : ℕ) (o a w l : ℕ) (ds : ℕ → ℕ)
      → AgreesWith c false (made t h) o a w l ds
      → Kept (move candle c false (made t h)) o a w l ds
  unfolding move
  made_agrees c t h o a w l ds ok =
      let alone : HashMap.get ℕ_discrete h c.tensors ≡ none = ground (arith, ok.once h) in
      record {
        balanced = omega (arith, ok.balanced, total-insert candle h t c.tensors alone);
        few_bytes = ok.few_bytes;
        few_handles = ok.few_handles;
        keyed = insert-IsKeyed ℕ_discrete h t c.tensors ok.keyed;
        once = λ k. rw (get-insert ℕ_discrete h k t c.tensors) (ground (arith, ok.once k));
        given = λ k above.
            rw (get-insert ℕ_discrete h k t c.tensors) (ground (arith, ok.given k above));
        exclusive = ok.exclusive;
      }

  freeing_agrees :
      (c : MemoryCache candle) (h : ℕ) (o a w l : ℕ) (ds : ℕ → ℕ)
      → AgreesWith c false (freeing h) o a w l ds
      → Kept (move candle c false (freeing h)) o a w l ds
  unfolding move
  freeing_agrees c h o a w l ds ok = elim (Option-cases (HashMap.get ℕ_discrete h c.tensors)) [
    | inl gone ↦ rw gone ok
    | inr (t, held) ↦ rw held (record {
      balanced = omega (arith, ok.balanced, total-remove candle h t c.tensors ok.keyed held);
      few_bytes = ok.few_bytes;
      few_handles = ok.few_handles;
      keyed = remove-IsKeyed ℕ_discrete h c.tensors ok.keyed;
      once = λ k. rw (get-remove ℕ_discrete h k c.tensors) (ground (arith, ok.once k));
      given =
          λ k above. rw (get-remove ℕ_discrete h k c.tensors) (ground (arith, ok.given k above));
      exclusive = omega (arith, ok.exclusive);
    })
  ]

  -- A move keeps the accounts, whatever the other calls come to.
  pub move_agrees :
      IsFaithful candle
      → (c : MemoryCache candle) (locked : Bool) (call : Call candle) (o a w l : ℕ) (ds : ℕ → ℕ)
      → AgreesWith c locked call o a w l ds
      → Kept (move candle c locked call) o a w l ds
  unfolding move
  move_agrees f c locked (allocating shape d) o a w l ds ok =
      allocating_agrees c locked shape d o a w l ds ok
  move_agrees f c locked (passed shape d) o a w l ds ok = record {
    balanced = omega (arith, ok.balanced, ok.few_bytes);
    few_bytes = omega (arith, ok.balanced, ok.few_bytes);
    few_handles = ok.few_handles;
    keyed = ok.keyed;
    once = ok.once;
    given = ok.given;
    exclusive = ok.exclusive;
  }
  move_agrees f c locked (added shape d) o a w l ds ok = added_agrees c locked shape d o a w l ds ok
  move_agrees f c locked (numbered shape d h) o a w l ds ok =
      numbered_agrees f c locked shape d h o a w l ds ok
  move_agrees f c true (made t h) o a w l ds ok = ok
  move_agrees f c false (made t h) o a w l ds ok = made_agrees c t h o a w l ds ok
  move_agrees f c locked (stored h) o a w l ds ok = ok
  move_agrees f c locked refused o a w l ds ok = ok
  move_agrees f c locked (failed shape d) o a w l ds ok = ok
  move_agrees f c true (freeing h) o a w l ds ok = ok
  move_agrees f c false (freeing h) o a w l ds ok = freeing_agrees c h o a w l ds ok
  move_agrees f c locked (removed t) o a w l ds ok = record {
    balanced = omega (arith, ok.balanced, ok.few_bytes);
    few_bytes = omega (arith, ok.balanced, ok.few_bytes);
    few_handles = ok.few_handles;
    keyed = ok.keyed;
    once = ok.once;
    given = ok.given;
    exclusive = ground (arith, ok.exclusive);
  }
  move_agrees f c locked freed o a w l ds ok = ok
