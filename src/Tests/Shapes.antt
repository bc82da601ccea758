-- ===== src/Tests/Shapes.antt =====
-- A tensor library of shapes, in which every operation gives the documented shape.
use inference_mesh.Base.{
  ℕ, zero, suc, ◌+◌, ◌≡◌, refl, ap, ◌∙◌, Bool, true, false, List, [], ◌∷◌, length, Result, ok,
}
use inference_mesh.Protocol.Schema.{Bytes}
use inference_mesh.Compute.Candle.{Candle}
use inference_mesh.Compute.Shapes.{Keeps-ok, count, Maps, HasLayout, HasArithmetic, HasWeights}

-- The sizes of the dimensions, and whether the elements are `f32`.
abbrev pub Shape : Type 0
Shape = List ℕ × Bool

abbrev set_at : ℕ → ℕ → List ℕ → List ℕ
set_at i n [] = []
set_at zero n (m ∷ shape) = n ∷ shape
set_at (suc i) n (m ∷ shape) = m ∷ set_at i n shape

abbrev insert_at : ℕ → List ℕ → List ℕ
insert_at zero shape = 1 ∷ shape
insert_at (suc i) [] = []
insert_at (suc i) (m ∷ shape) = m ∷ insert_at i shape

abbrev add_at : ℕ → List ℕ → List ℕ → List ℕ
add_at i [] other = []
add_at i (m ∷ shape) [] = []
add_at zero (m ∷ shape) (n ∷ other) = (m + n) ∷ shape
add_at (suc i) (m ∷ shape) (n ∷ other) = m ∷ add_at i shape other

abbrev joined_at : ℕ → List Shape → Shape
joined_at i [] = ([], false)
joined_at i (t ∷ []) = t
joined_at i (t ∷ u ∷ ts) = (add_at i t.0 u.0, t.1)

abbrev swap_middle : List ℕ → List ℕ
swap_middle [] = []
swap_middle (a ∷ []) = a ∷ []
swap_middle (a ∷ b ∷ []) = a ∷ b ∷ []
swap_middle (a ∷ b ∷ c ∷ shape) = a ∷ c ∷ b ∷ shape

abbrev first : List ℕ → ℕ
first [] = 0
first (n ∷ shape) = n

abbrev rest : List ℕ → List ℕ
rest [] = []
rest (n ∷ shape) = shape

abbrev last : List ℕ → ℕ
last [] = 0
last (n ∷ []) = n
last (n ∷ m ∷ shape) = last (m ∷ shape)

abbrev pub zeros_of : ℕ → List ℕ
zeros_of zero = []
zeros_of (suc n) = 0 ∷ zeros_of n

length-zeros_of : (n : ℕ) → length (zeros_of n) ≡ n
length-zeros_of zero = refl
length-zeros_of (suc n) = ap suc (length-zeros_of n)

abbrev same : Shape → Result Shape
same t = ok t

abbrev pub shapes : Candle
shapes = record {
  Tensor = Shape;
  Linear = Shape;
  F32 = ℕ;
  F64 = ℕ;
  neg_infinity = 9;
  zero = 0;
  one = 1;
  small_eps = 0;
  rope_base = 10000;
  div_f32 = λ a b. a;
  div_f64 = λ a b. a;
  powf = λ a b. a;
  sqrt = λ a. a;
  from_bits = λ n. n;
  usize_as_f64 = λ a. a;
  f64_as_f32 = λ a. a;
  f32_as_f64 = λ a. a;
  VarBuilder = Bytes;
  pp = λ name vb. name;
  get_weight = λ shape name vb. ok (shape.0 ∷ shape.1 ∷ [], true);
  rms_norm_new = λ size eps vb. ok (size ∷ [], true);
  zeros = λ size like. ok (size ∷ [], like.1);
  linear_new = λ ws bs. ws;
  new_weights = [];
  open_model = λ path. ok path;
  from_vec = λ xs shape. ok (shape, true);
  from_raw_buffer = λ bytes dtype shape. ok (shape, true);
  from_tokens = λ ts. ok (length ts ∷ [], false);
  embedding = λ w t. ok (length t.0 ∷ rest w.0, true);
  arange = λ a b. ok (b ∷ [], false);
  to_vec1 = λ t. ok (zeros_of (first t.0));
  dims = λ t. t.0;
  reshape = λ shape t. ok (shape, t.1);
  reshape_rest = λ shape t. ok (first t.0 ∷ shape, t.1);
  transpose = λ i j t. ok (swap_middle t.0, t.1);
  transpose_last = λ t. ok (swap_middle t.0, t.1);
  contiguous = same;
  unsqueeze = λ i t. ok (insert_at i t.0, t.1);
  expand = λ shape t. ok (shape, t.1);
  repeat = λ times t. ok (first times ∷ rest t.0, t.1);
  narrow = λ i start size t. ok (set_at i size t.0, t.1);
  cat = λ ts i. ok (joined_at i ts);
  stack = λ ts i. ok ([], true);
  squeeze = λ i t. ok (rest t.0, t.1);
  flatten_all = λ t. ok (count t.0 ∷ [], t.1);
  to_cpu = same;
  to_f32 = λ t. ok (t.0, true);
  get = λ t i. ok (rest t.0, t.1);
  add = λ t u. ok t;
  mul = λ t u. ok t;
  argmax = λ i t. ok (rest t.0, false);
  to_scalar = λ t. ok (length t.0);
  matmul = λ t u. ok (set_at 2 (last u.0) t.0, t.1);
  broadcast_matmul = λ t u. ok (set_at 2 (last u.0) t.0, t.1);
  div_scalar = λ t x. ok t;
  neg = same;
  cos = same;
  sin = same;
  silu = same;
  softmax_last_dim = same;
  rms_norm = λ t w eps. ok t;
  linear = λ l t. ok (set_at 2 (first l.0) t.0, t.1);
}

abbrev pub holds_f32 : Shape → Bool
holds_f32 t = t.1

pub shapes-HasLayout : HasLayout shapes holds_f32
shapes-HasLayout = record {
  from_vec_lem = λ xs shape size. (_, refl, (refl, refl));
  from_raw_lem = λ bytes shape size. (_, refl, (refl, refl));
  arange_lem = λ n. (_, refl, refl);
  unsqueeze_integers_lem = λ t a e. (_, refl, ap (insert_at 0) e);
  repeat_lem = λ t a b e. (_, refl, ap (λ ds. a ∷ rest ds) e);
  to_f32_lem = λ t shape e. (_, refl, (e, refl));
  reshape_lem = λ t from to is size. (_, refl, (refl, is.1));
  reshape_rest_lem = λ t a b is some_rows. (_, refl, (ap (λ ds. first ds ∷ b ∷ 1 ∷ []) is.0, is.1));
  transpose_lem = λ t a b c d is. (_, refl, (ap swap_middle is.0, is.1));
  transpose_last_lem = λ t a b c is. (_, refl, (ap swap_middle is.0, is.1));
  contiguous_lem = λ t shape is. (_, refl, is);
  unsqueeze_first_lem = λ t shape is. (_, refl, (ap (insert_at 0) is.0, is.1));
  unsqueeze_second_lem = λ t a shape is. (_, refl, (ap (insert_at 1) is.0, is.1));
  expand_lem = λ t from to is fits. (_, refl, (refl, is.1));
  narrow_second_lem = λ t a b c start size is fits. (_, refl, (ap (set_at 1 size) is.0, is.1));
  narrow_fourth_lem = λ t a b c d start size is fits. (_, refl, (ap (set_at 3 size) is.0, is.1));
  cat_last_lem = λ t u a b c d t_is u_is. (_, refl, (λ i. add_at 2 (t_is.0 i) (u_is.0 i), t_is.1));
  cat_third_lem =
      λ t u a b c d e t_is u_is. (_, refl, (λ i. add_at 2 (t_is.0 i) (u_is.0 i), t_is.1));
  cat_fourth_lem =
      λ t u a b c d e t_is u_is. (_, refl, (λ i. add_at 3 (t_is.0 i) (u_is.0 i), t_is.1));
  get_lem = λ t i a shape is below. (_, refl, (ap rest is.0, is.1));
  flatten_lem = λ t shape is. (_, refl, (ap (λ ds. count ds ∷ []) is.0, is.1));
  to_cpu_lem = λ t shape is. (_, refl, is);
  to_vec_lem = λ t n is. (_, refl, length-zeros_of (first t.0) ∙ ap first is.0);
}

pub shapes-HasArithmetic : HasArithmetic shapes holds_f32
shapes-HasArithmetic = record {
  add_lem = λ t u shape t_is u_is. (_, refl, t_is);
  mul_lem = λ t u shape t_is u_is. (_, refl, t_is);
  matmul_lem =
      λ t u a b c d t_is u_is. (_, refl, (λ i. set_at 2 (last (u_is.0 i)) (t_is.0 i), t_is.1));
  broadcast_matmul_lem =
      λ t u a b c d t_is u_is. (_, refl, (λ i. set_at 2 (last (u_is.0 i)) (t_is.0 i), t_is.1));
  div_scalar_lem = λ t x shape is. (_, refl, is);
  neg_lem = λ t shape is. (_, refl, is);
  cos_lem = λ t shape is. (_, refl, is);
  sin_lem = λ t shape is. (_, refl, is);
  silu_lem = λ t shape is. (_, refl, is);
  softmax_lem = λ t a b c is some_columns. (_, refl, is);
  rms_norm_lem = λ t w eps a b c t_is w_is some_columns. (_, refl, t_is);
}

pub linear-Maps : (w : Shape) (to from : ℕ) → first w.0 ≡ to → Maps shapes holds_f32 from to w
linear-Maps w to from e t a b is = (_, refl, (λ i. set_at 2 (e i) (is.0 i), is.1))

pub shapes-HasWeights : HasWeights shapes holds_f32
shapes-HasWeights = record {
  get_weight_lem = λ to from name vb. Keeps-ok _ refl (refl, refl);
  zeros_lem = λ n like is. Keeps-ok _ refl (refl, is);
  linear_new_lem = λ ws bs to from ws_is bs_is. linear-Maps ws to from (ap first ws_is.0);
  rms_norm_new_lem = λ size eps vb. Keeps-ok _ refl (refl, refl);
}
