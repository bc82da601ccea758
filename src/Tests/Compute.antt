-- ===== src/Tests/Compute.antt =====
-- A tensor library of shapes and elements, in which no operation fails, the mask that a block makes
-- with it, and a pass through two blocks.
use inference_mesh.Base.{
  ℕ, ◌+◌, ◌*◌, ◌<◌, ◌≡◌, refl, ltb, if◌then◌else◌, Option, none, some, List, [], ◌∷◌, get_elem?,
  length, Result, ok, arith,
}
use inference_mesh.Protocol.Schema.{Bytes}
use inference_mesh.Protocol.Dtype.{Dtype}
use inference_mesh.P2p.Dht.{codes, layers_between, range}
use inference_mesh.Compute.Candle.{Candle}
use inference_mesh.Compute.Config
use inference_mesh.Compute.Config.{ModelConfig, num_key_value_groups, num_key_value_heads}
use inference_mesh.Compute.Block.{TransformerBlock, compute_attention_mask}
use inference_mesh.Compute.Block.Mask.{HoldsElements, compute_attention_mask_lem}
use inference_mesh.Compute.Block.Load.{
  load_from_safetensors, load_block_from_vb, linear_no_bias, test_config,
}
use inference_mesh.Compute.Engine
use inference_mesh.Compute.Engine.{
  ComputeEngine, load_blocks, load_layers, process_terminal_pass, read_outputs, first_output,
}
use inference_mesh.Compute.Engine.Loaded.{
  AreLoaded, pass_through, process_terminal_pass-load_blocks,
}

abbrev pub Block3 : Type 0
Block3 = List ℕ × (ℕ → ℕ → ℕ → Option ℕ)

abbrev pub row_major : List ℕ → List ℕ → ℕ → ℕ → ℕ → Option ℕ
row_major (h ∷ t ∷ u ∷ []) xs b r c = get_elem? xs (b * (t * u) + (r * u + c))
row_major shape xs b r c = none

abbrev pub same_one : Block3 → Result Block3
same_one t = ok t

abbrev pub candle : Candle
candle = record {
  Tensor = Block3;
  Linear = Block3;
  F32 = ℕ;
  F64 = ℕ;
  neg_infinity = 9;
  zero = 0;
  one = 1;
  small_eps = 0;
  rope_base = 10000;
  div_f32 = λ a b. a;
  div_f64 = λ a b. a;
  powf = λ a b. a;
  sqrt = λ a. a;
  from_bits = λ n. n;
  usize_as_f64 = λ a. a;
  f64_as_f32 = λ a. a;
  f32_as_f64 = λ a. a;
  VarBuilder = Bytes;
  pp = λ name vb. name;
  get_weight = λ shape name vb. ok (shape.0 ∷ shape.1 ∷ [], λ b r c. none);
  rms_norm_new = λ size eps vb. ok (size ∷ [], λ b r c. none);
  zeros = λ size like. ok (size ∷ [], λ b r c. none);
  linear_new = λ ws bs. ws;
  new_weights = [];
  open_model = λ path. ok path;
  from_vec = λ xs shape. ok (shape, row_major shape xs);
  from_raw_buffer = λ bytes dtype shape. ok (shape, row_major shape bytes);
  from_tokens = λ ts. ok (length ts ∷ [], λ b r c. none);
  embedding = λ w t. ok t;
  arange = λ a b. ok (b ∷ [], λ b r c. none);
  to_vec1 = λ t. ok t.0;
  dims = λ t. t.0;
  reshape = λ shape t. ok (shape, t.1);
  reshape_rest = λ shape t. ok (shape, t.1);
  transpose = λ i j t. ok t;
  transpose_last = same_one;
  contiguous = same_one;
  unsqueeze = λ i t. ok t;
  expand = λ shape t. ok (shape, t.1);
  repeat = λ times t. ok t;
  narrow = λ i start count t. ok (t.0, λ b r c. t.1 b (start + r) c);
  cat = λ ts i. ok ([], λ b r c. none);
  stack = λ ts i. ok ([], λ b r c. none);
  squeeze = λ i t. ok t;
  flatten_all = same_one;
  to_cpu = same_one;
  to_f32 = same_one;
  get = λ t i. ok t;
  add = λ t u. ok t;
  mul = λ t u. ok t;
  argmax = λ i t. ok t;
  to_scalar = λ t. ok (length t.0);
  matmul = λ t u. ok t;
  broadcast_matmul = λ t u. ok t;
  div_scalar = λ t x. ok t;
  neg = same_one;
  cos = same_one;
  sin = same_one;
  silu = same_one;
  softmax_last_dim = same_one;
  rms_norm = λ t w eps. ok t;
  linear = λ l t. ok t;
}

abbrev element : Block3 → ℕ → ℕ → ℕ → Option ℕ
element t b r c = t.1 b r c

candle-HoldsElements : HoldsElements candle element
candle-HoldsElements = record {
  from_vec_lem = λ xs h t e. (
    (h ∷ t ∷ t ∷ [], row_major (h ∷ t ∷ t ∷ []) xs),
    refl,
    λ b r c hb hr hc. refl,
    λ start count inside. (
      (h ∷ t ∷ t ∷ [], λ b r c. row_major (h ∷ t ∷ t ∷ []) xs b (start + r) c),
      refl,
      λ b r c hb hr hc. refl,
    ),
  );
}

-- Two heads, three new positions after one old one.
compute_attention_mask_lem_example :
    (mask : Block3) × (compute_attention_mask candle 2 3 1 ≡ ok mask)
    × ((b r c : ℕ)
        → b < 2
        → r < 3
        → c < 1 + 3
        → element mask b r c ≡ some (if ltb (1 + r) c then 9 else 0))
compute_attention_mask_lem_example =
    compute_attention_mask_lem candle element candle-HoldsElements 2 3 1 (omega arith)

abbrev pub config : ModelConfig ℕ
config = test_config candle 0 10000

abbrev pub loaded : ComputeEngine candle × Result {0} Unit
loaded = load_blocks candle (Engine.new candle) (codes "model") config 3 4

loaded_ok : loaded ≡ (loaded.0, ok tt)
unfolding load_blocks load_layers load_from_safetensors load_block_from_vb linear_no_bias
    Config.head_dim Config.from_config num_key_value_groups layers_between range Engine.new
loaded_ok = refl

process_terminal_pass-load_blocks_example :
    (bs : List (TransformerBlock candle)) × AreLoaded candle
      (codes "model")
      config
      (layers_between 3 4)
      bs
    × ((bytes : Bytes) (dtype : Dtype) (shape : List ℕ)
        → process_terminal_pass candle loaded.0 3 4 bytes dtype shape none none none
          ≡ pass_through candle bs bytes dtype shape)
process_terminal_pass-load_blocks_example =
    process_terminal_pass-load_blocks candle (Engine.new candle) loaded.0 (codes "model") config 3 4
      loaded_ok
