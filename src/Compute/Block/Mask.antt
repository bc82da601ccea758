-- ===== src/Compute/Block/Mask.antt =====
-- The causal mask (src/compute/src/block.rs): where it is open.
use native.Mathlib.Nat.{mul-le-mul_right}
use inference_mesh.Base.{
  ℕ, zero, suc, ◌+◌, ◌*◌, ◌≤◌, ◌<◌, ◌≡◌, refl, ◌∙◌, ap, ltb, if◌then◌else◌, Option, some, ok,
  u64_mod, Bool-cases, inl, inr, List, [], ◌∷◌, ◌++◌, length, length-append, get_elem?, arith,
}
use inference_mesh.Compute.Block.{mask_row, mask_rows, mask_data, add_usize, compute_attention_mask}
use inference_mesh.Compute.Candle.{Candle}

module _ {ℓ} {A : Type ℓ} where
  get_elem?-append_left :
      (xs ys : List A) (i : ℕ) → i < length xs → get_elem? (xs ++ ys) i ≡ get_elem? xs i
  get_elem?-append_left [] ys i h = elim h [ ]
  get_elem?-append_left (x ∷ xs) ys zero h = refl
  get_elem?-append_left (x ∷ xs) ys (suc i) h = get_elem?-append_left xs ys i (omega arith)

  get_elem?-append_right :
      (xs ys : List A) (i : ℕ) → get_elem? (xs ++ ys) (length xs + i) ≡ get_elem? ys i
  get_elem?-append_right [] ys i = ground arith
  get_elem?-append_right (x ∷ xs) ys i = ground (arith, get_elem?-append_right xs ys i)

module _ {F32 : Type 0} (neg_infinity zero_f : F32) where
  -- What a query at i sees of a key at j.
  abbrev pub entry : ℕ → ℕ → F32
  entry i j = if ltb i j then neg_infinity else zero_f

  length-mask_row : (i j left : ℕ) → length (mask_row neg_infinity zero_f i j left) ≡ left
  unfolding mask_row
  length-mask_row i j zero = refl
  length-mask_row i j (suc left) = ap suc (length-mask_row i (j + 1) left)

  get_elem?-mask_row :
      (i j left k : ℕ)
      → k < left
      → get_elem? (mask_row neg_infinity zero_f i j left) k ≡ some (entry i (j + k))
  unfolding mask_row
  get_elem?-mask_row i j zero k h = elim h [ ]
  get_elem?-mask_row i j (suc left) zero h = ap (λ k. some (entry i k)) (omega arith)
  get_elem?-mask_row i j (suc left) (suc k) h =
      get_elem?-mask_row i (j + 1) left k (omega arith) ∙ ap (λ k. some (entry i k)) (omega arith)

  length-mask_rows :
      (total i left : ℕ) → length (mask_rows neg_infinity zero_f total i left) ≡ left * total
  unfolding mask_rows
  length-mask_rows total i zero = omega arith
  length-mask_rows total i (suc left) = omega (
    arith,
    length-append (mask_row neg_infinity zero_f i 0 total)
        (mask_rows neg_infinity zero_f total (i + 1) left),
    length-mask_row i 0 total,
    length-mask_rows total (i + 1) left,
  )

  get_elem?-mask_rows :
      (total i left r c : ℕ)
      → r < left
      → c < total
      → get_elem? (mask_rows neg_infinity zero_f total i left) (r * total + c)
        ≡ some (entry (i + r) c)
  unfolding mask_rows
  get_elem?-mask_rows total i zero r c hr hc = elim hr [ ]
  get_elem?-mask_rows total i (suc left) zero c hr hc =
      ap (get_elem? (mask_rows neg_infinity zero_f total i (suc left))) (omega arith)
      ∙ (get_elem?-append_left (mask_row neg_infinity zero_f i 0 total) _ c
            (omega (arith, hc, length-mask_row i 0 total))
          ∙ (get_elem?-mask_row i 0 total c hc
              ∙ (ap (λ k. some (entry i k)) (omega arith)
                  ∙ ap (λ k. some (entry k c)) (omega arith))))
  get_elem?-mask_rows total i (suc left) (suc r) c hr hc =
      ap (get_elem? (mask_rows neg_infinity zero_f total i (suc left))) at
      ∙ (get_elem?-append_right (mask_row neg_infinity zero_f i 0 total) _ (r * total + c)
          ∙ (get_elem?-mask_rows total (i + 1) left r c (omega arith) hc
              ∙ ap (λ k. some (entry k c)) (omega arith)))
    where
      at : suc r * total + c ≡ length (mask_row neg_infinity zero_f i 0 total) + (r * total + c)
      at = omega (arith, length-mask_row i 0 total)

  pub length-mask_data :
      (total heads : ℕ)
      → length (mask_data neg_infinity zero_f total heads) ≡ heads * (total * total)
  unfolding mask_data
  length-mask_data total zero = omega arith
  length-mask_data total (suc heads) = omega (
    arith,
    length-append (mask_rows neg_infinity zero_f total 0 total)
        (mask_data neg_infinity zero_f total heads),
    length-mask_rows total 0 total,
    length-mask_data total heads,
  )

  get_elem?-mask_data :
      (total heads b r c : ℕ)
      → b < heads
      → r < total
      → c < total
      → get_elem?
          (mask_data neg_infinity zero_f total heads)
          (b * (total * total) + (r * total + c))
        ≡ some (entry r c)
  unfolding mask_data
  get_elem?-mask_data total zero b r c hb hr hc = elim hb [ ]
  get_elem?-mask_data total (suc heads) zero r c hb hr hc =
      ap (get_elem? (mask_data neg_infinity zero_f total (suc heads))) (omega arith)
      ∙ (get_elem?-append_left (mask_rows neg_infinity zero_f total 0 total) _ (r * total + c)
            (omega (arith, length-mask_rows total 0 total, inside))
          ∙ (get_elem?-mask_rows total 0 total r c hr hc
              ∙ ap (λ k. some (entry k c)) (omega arith)))
    where
      inside : r * total + c < total * total
      inside = omega (arith, hc, mul-le-mul_right total hr)
  get_elem?-mask_data total (suc heads) (suc b) r c hb hr hc =
      ap (get_elem? (mask_data neg_infinity zero_f total (suc heads))) at
      ∙ (get_elem?-append_right (mask_rows neg_infinity zero_f total 0 total) _
            (b * (total * total) + (r * total + c))
          ∙ get_elem?-mask_data total heads b r c (omega arith) hr hc)
    where
      at :
          suc b * (total * total) + (r * total + c)
          ≡ length (mask_rows neg_infinity zero_f total 0 total)
            + (b * (total * total) + (r * total + c))
      at = omega (arith, length-mask_rows total 0 total)

-- A tensor made from a list holds it row by row, and a part of it along the second dimension holds
-- the elements from where it starts. `elem` reads an element of a tensor of three dimensions.
pub record HoldsElements (candle : Candle) (elem : candle.Tensor → ℕ → ℕ → ℕ → Option candle.F32)
    : Type 0 where
  pub from_vec_lem :
      (xs : List candle.F32) (h t : ℕ)
      → length xs ≡ h * (t * t)
      → (made : candle.Tensor) × (candle.from_vec xs (h ∷ t ∷ t ∷ []) ≡ ok made)
        × ((b r c : ℕ)
            → b < h
            → r < t
            → c < t
            → elem made b r c ≡ get_elem? xs (b * (t * t) + (r * t + c)))
        × ((start count : ℕ)
            → start + count ≤ t
            → (part : candle.Tensor) × (candle.narrow 1 start count made ≡ ok part)
              × ((b r c : ℕ)
                  → b < h
                  → r < count
                  → c < t
                  → elem part b r c ≡ elem made b (start + r) c))

-- The function, once the tensor is made.
mask_made :
    (candle : Candle) (heads seq_len past_len total : ℕ) {full : candle.Tensor}
    → add_usize past_len seq_len ≡ total
    → candle.from_vec
        (mask_data candle.neg_infinity candle.zero total heads)
        (heads ∷ total ∷ total ∷ [])
      ≡ ok full
    → compute_attention_mask candle heads seq_len past_len
      ≡ (if ltb 0 past_len then candle.narrow 1 past_len seq_len full else ok full)
unfolding compute_attention_mask
mask_made candle heads seq_len past_len total size made = rw (size, made) refl

-- Where tensors hold the elements that they are made from, the mask of seq_len new positions after
-- past_len old ones, which together are below 2 ^ 64, is made without an error, and for each head it
-- is open where the key's position is not after the query's.
pub compute_attention_mask_lem :
    (candle : Candle) (elem : candle.Tensor → ℕ → ℕ → ℕ → Option candle.F32)
    → HoldsElements candle elem
    → (heads seq_len past_len : ℕ) → past_len + seq_len < u64_mod
    → (mask : candle.Tensor) × (compute_attention_mask candle heads seq_len past_len ≡ ok mask)
      × ((b r c : ℕ)
          → b < heads
          → r < seq_len
          → c < past_len + seq_len
          → elem mask b r c
            ≡ some (if ltb (past_len + r) c then candle.neg_infinity else candle.zero))
compute_attention_mask_lem candle elem holds heads seq_len past_len small =
    let total = past_len + seq_len in
    let xs = mask_data candle.neg_infinity candle.zero total heads in
    let held =
      holds.from_vec_lem xs heads total
        (length-mask_data candle.neg_infinity candle.zero total heads) in
    let seen : (b r c : ℕ)
        → b < heads
        → r < total
        → c < total
        → elem held.0 b r c ≡ some (entry candle.neg_infinity candle.zero r c) =
      λ b r c hb hr hc.
        held.2 b r c hb hr hc
        ∙ get_elem?-mask_data candle.neg_infinity candle.zero total heads b r c hb hr hc in
    let made = mask_made candle heads seq_len past_len total (omega (arith, small)) held.1 in
    elim (Bool-cases (ltb 0 past_len)) [
      | inl some_past ↦
          let (part, cut, moved) = held.3 past_len seq_len (omega arith) in
          (
            part,
            made ∙ rw some_past cut,
            λ b r c hb hr hc.
                moved b r c hb hr hc ∙ seen b (past_len + r) c hb (omega (arith, hr)) hc,
          )
      | inr no_past ↦
          let none_past : past_len ≡ 0 = ground (arith, no_past) in
          (
            held.0,
            made ∙ rw no_past refl,
            λ b r c hb hr hc.
                seen b r c hb (omega (arith, hr)) hc
                ∙ ap (λ i. some (entry candle.neg_infinity candle.zero i c))
                    (omega (arith, none_past)),
          )
    ]
