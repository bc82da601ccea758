-- ===== src/Compute/Shapes.antt =====
-- What candle, which the code of src/compute calls, documents of the shapes of tensors, and results
-- that are there with a property.
use inference_mesh.Base.{
  ℕ, ◌+◌, ◌*◌, ◌≡◌, sym, subst, ◌∙◌, ◌⊎◌, ◌<◌, ◌≤◌, Bool, true, List, [], ◌∷◌, length, Result, ok,
  ◌>>=◌, >>=-eq-ok, ok-injective,
}
use inference_mesh.Protocol.Schema.{Bytes}
use inference_mesh.Protocol.Dtype.{f32, element_size}
use inference_mesh.Compute.Candle.{Candle}

-- The call returns a value, and the value has the property.
abbrev pub Gives {ℓ κ} : {A : Type ℓ} → Result A → (A → Type κ) → Type (ℓ ⊔ κ)
Gives {A = A} r P = (a : A) × (r ≡ ok a) × P a

-- A value that the call returns has the property.
abbrev pub Keeps {ℓ κ} : {A : Type ℓ} → Result A → (A → Type κ) → Type (ℓ ⊔ κ)
Keeps {A = A} r P = (a : A) → r ≡ ok a → P a

-- How the properties of the steps of a chain follow one another.
module _ {ℓ κ μ ν} {A : Type ℓ} {B : Type κ} {P : A → Type μ} {Q : B → Type ν} where
  infixr 5 ◌>>>◌
  pub ◌>>>◌ :
      {r : Result A} {f : A → Result B}
      → Gives r P
      → ((a : A) → P a → Gives (f a) Q)
      → Gives (r >>= f) Q
  (a, e, p) >>> next = rw e (next a p)

  pub Keeps-then :
      (r : Result A) {f : A → Result B}
      → Keeps r P
      → ((a : A) → P a → Keeps (f a) Q)
      → Keeps (r >>= f) Q
  Keeps-then r {f} first next b e =
      let (a, is_a, is_b) = >>=-eq-ok r f e in next a (first a is_a) b is_b

module _ {ℓ κ} {A : Type ℓ} (P : A → Type κ) where
  pub Keeps-ok : {r : Result A} {a : A} → r ≡ ok a → P a → Keeps r P
  Keeps-ok e p b e' = subst P (ok-injective (sym e ∙ e')) p

-- The number of elements.
abbrev pub count : List ℕ → ℕ
count [] = 1
count (n ∷ shape) = n * count shape

-- Each dimension is kept, or was 1.
abbrev pub Expands : List ℕ → List ℕ → Type 0
Expands [] [] = Unit
Expands [] (m ∷ to) = ⊥
Expands (n ∷ from) [] = ⊥
Expands (n ∷ from) (m ∷ to) = ((n ≡ m) ⊎ (n ≡ 1)) × Expands from to

-- `is_f32` tells the tensors whose elements are `f32`.
module _ (candle : Candle) (is_f32 : candle.Tensor → Bool) where
  open candle use {Tensor, Linear, dims}

  abbrev pub Is : List ℕ → Tensor → Type 0
  Is shape t = (dims t ≡ shape) × (is_f32 t ≡ true)

  pub Is-shape : {from to : List ℕ} {t : Tensor} → Is from t → from ≡ to → Is to t
  Is-shape (e, f) same = (e ∙ same, f)

  abbrev pub Has : Result Tensor → List ℕ → Type 0
  Has r shape = Gives r (Is shape)

  pub Has-shape : {r : Result Tensor} {from to : List ℕ} → Has r from → from ≡ to → Has r to
  Has-shape (t, e, t_is) same = (t, e, Is-shape t_is same)

  -- A linear map on the last dimension.
  abbrev pub Maps : ℕ → ℕ → Linear → Type 0
  Maps from to l =
      (t : Tensor) (a b : ℕ) → Is (a ∷ b ∷ from ∷ []) t → Has (candle.linear l t) (a ∷ b ∷ to ∷ [])

  -- Tensors from data, and what moves or copies elements.
  pub record HasLayout : Type 0 where
    pub from_vec_lem :
        (xs : List candle.F32) (shape : List ℕ)
        → length xs ≡ count shape
        → Has (candle.from_vec xs shape) shape
    pub from_raw_lem :
        (bytes : Bytes) (shape : List ℕ)
        → length bytes ≡ count shape * element_size f32
        → Has (candle.from_raw_buffer bytes f32 shape) shape
    -- Positions are integers.
    pub arange_lem : (n : ℕ) → Gives (candle.arange 0 n) (λ t. dims t ≡ n ∷ [])
    pub unsqueeze_integers_lem :
        (t : Tensor) (a : ℕ)
        → dims t ≡ a ∷ []
        → Gives (candle.unsqueeze 0 t) (λ t. dims t ≡ 1 ∷ a ∷ [])
    pub repeat_lem :
        (t : Tensor) (a b : ℕ)
        → dims t ≡ 1 ∷ b ∷ []
        → Gives (candle.repeat (a ∷ 1 ∷ []) t) (λ t. dims t ≡ a ∷ b ∷ [])
    pub to_f32_lem : (t : Tensor) (shape : List ℕ) → dims t ≡ shape → Has (candle.to_f32 t) shape
    pub reshape_lem :
        (t : Tensor) (from to : List ℕ)
        → Is from t
        → count from ≡ count to
        → Has (candle.reshape to t) to
    -- `reshape(((), b, 1))`.
    pub reshape_rest_lem :
        (t : Tensor) (a b : ℕ)
        → Is (a ∷ b ∷ []) t
        → 0 < b
        → Has (candle.reshape_rest (b ∷ 1 ∷ []) t) (a ∷ b ∷ 1 ∷ [])
    pub transpose_lem :
        (t : Tensor) (a b c d : ℕ)
        → Is (a ∷ b ∷ c ∷ d ∷ []) t
        → Has (candle.transpose 1 2 t) (a ∷ c ∷ b ∷ d ∷ [])
    pub transpose_last_lem :
        (t : Tensor) (a b c : ℕ)
        → Is (a ∷ b ∷ c ∷ []) t
        → Has (candle.transpose_last t) (a ∷ c ∷ b ∷ [])
    pub contiguous_lem :
        (t : Tensor) (shape : List ℕ) → Is shape t → Has (candle.contiguous t) shape
    pub unsqueeze_first_lem :
        (t : Tensor) (shape : List ℕ) → Is shape t → Has (candle.unsqueeze 0 t) (1 ∷ shape)
    pub unsqueeze_second_lem :
        (t : Tensor) (a : ℕ) (shape : List ℕ)
        → Is (a ∷ shape) t
        → Has (candle.unsqueeze 1 t) (a ∷ 1 ∷ shape)
    pub expand_lem :
        (t : Tensor) (from to : List ℕ) → Is from t → Expands from to → Has (candle.expand to t) to
    pub narrow_second_lem :
        (t : Tensor) (a b c start size : ℕ)
        → Is (a ∷ b ∷ c ∷ []) t
        → start + size ≤ b
        → Has (candle.narrow 1 start size t) (a ∷ size ∷ c ∷ [])
    pub narrow_fourth_lem :
        (t : Tensor) (a b c d start size : ℕ)
        → Is (a ∷ b ∷ c ∷ d ∷ []) t
        → start + size ≤ d
        → Has (candle.narrow 3 start size t) (a ∷ b ∷ c ∷ size ∷ [])
    pub cat_last_lem :
        (t u : Tensor) (a b c d : ℕ)
        → Is (a ∷ b ∷ c ∷ []) t
        → Is (a ∷ b ∷ d ∷ []) u
        → Has (candle.cat (t ∷ u ∷ []) 2) (a ∷ b ∷ (c + d) ∷ [])
    pub cat_third_lem :
        (t u : Tensor) (a b c d e : ℕ)
        → Is (a ∷ b ∷ c ∷ e ∷ []) t
        → Is (a ∷ b ∷ d ∷ e ∷ []) u
        → Has (candle.cat (t ∷ u ∷ []) 2) (a ∷ b ∷ (c + d) ∷ e ∷ [])
    pub cat_fourth_lem :
        (t u : Tensor) (a b c d e : ℕ)
        → Is (a ∷ b ∷ c ∷ d ∷ []) t
        → Is (a ∷ b ∷ c ∷ e ∷ []) u
        → Has (candle.cat (t ∷ u ∷ []) 3) (a ∷ b ∷ c ∷ (d + e) ∷ [])
    pub get_lem :
        (t : Tensor) (i a : ℕ) (shape : List ℕ)
        → Is (a ∷ shape) t
        → i < a
        → Has (candle.get t i) shape
    pub flatten_lem :
        (t : Tensor) (shape : List ℕ) → Is shape t → Has (candle.flatten_all t) (count shape ∷ [])
    pub to_cpu_lem : (t : Tensor) (shape : List ℕ) → Is shape t → Has (candle.to_cpu t) shape
    pub to_vec_lem :
        (t : Tensor) (n : ℕ) → Is (n ∷ []) t → Gives (candle.to_vec1 t) (λ xs. length xs ≡ n)

  -- What computes with elements.
  pub record HasArithmetic : Type 0 where
    pub add_lem :
        (t u : Tensor) (shape : List ℕ) → Is shape t → Is shape u → Has (candle.add t u) shape
    pub mul_lem :
        (t u : Tensor) (shape : List ℕ) → Is shape t → Is shape u → Has (candle.mul t u) shape
    pub matmul_lem :
        (t u : Tensor) (a b c d : ℕ)
        → Is (a ∷ b ∷ c ∷ []) t
        → Is (a ∷ c ∷ d ∷ []) u
        → Has (candle.matmul t u) (a ∷ b ∷ d ∷ [])
    pub broadcast_matmul_lem :
        (t u : Tensor) (a b c d : ℕ)
        → Is (a ∷ b ∷ c ∷ []) t
        → Is (c ∷ d ∷ []) u
        → Has (candle.broadcast_matmul t u) (a ∷ b ∷ d ∷ [])
    pub div_scalar_lem :
        (t : Tensor) (x : candle.F64) (shape : List ℕ)
        → Is shape t
        → Has (candle.div_scalar t x) shape
    pub neg_lem : (t : Tensor) (shape : List ℕ) → Is shape t → Has (candle.neg t) shape
    pub cos_lem : (t : Tensor) (shape : List ℕ) → Is shape t → Has (candle.cos t) shape
    pub sin_lem : (t : Tensor) (shape : List ℕ) → Is shape t → Has (candle.sin t) shape
    pub silu_lem : (t : Tensor) (shape : List ℕ) → Is shape t → Has (candle.silu t) shape
    pub softmax_lem :
        (t : Tensor) (a b c : ℕ)
        → Is (a ∷ b ∷ c ∷ []) t
        → 0 < c
        → Has (candle.softmax_last_dim t) (a ∷ b ∷ c ∷ [])
    pub rms_norm_lem :
        (t w : Tensor) (eps : candle.F32) (a b c : ℕ)
        → Is (a ∷ b ∷ c ∷ []) t
        → Is (c ∷ []) w
        → 0 < c
        → Has (candle.rms_norm t w eps) (a ∷ b ∷ c ∷ [])

  -- Weights that are read have the asked shape, and linear maps that of their weights.
  pub record HasWeights : Type 0 where
    pub get_weight_lem :
        (to from : ℕ) (name : Bytes) (vb : candle.VarBuilder)
        → Keeps (candle.get_weight (to, from) name vb) (Is (to ∷ from ∷ []))
    pub zeros_lem :
        (n : ℕ) (like : Tensor) → is_f32 like ≡ true → Keeps (candle.zeros n like) (Is (n ∷ []))
    pub linear_new_lem :
        (ws bs : Tensor) (to from : ℕ)
        → Is (to ∷ from ∷ []) ws
        → Is (to ∷ []) bs
        → Maps from to (candle.linear_new ws bs)
    pub rms_norm_new_lem :
        (size : ℕ) (eps : candle.F64) (vb : candle.VarBuilder)
        → Keeps (candle.rms_norm_new size eps vb) (Is (size ∷ []))
