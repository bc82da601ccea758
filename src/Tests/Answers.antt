-- ===== src/Tests/Answers.antt =====
-- A block with a cache, and a pass through two layers that were loaded, on tensors that are shapes.
use inference_mesh.Base.{ℕ, ◌≡◌, refl, true, false, none, some, [], ◌∷◌, Result, ok, arith}
use inference_mesh.P2p.Dht.{codes, layers_between, range}
use inference_mesh.Compute.Config
use inference_mesh.Compute.Config.{ModelConfig, num_key_value_groups, num_key_value_heads}
use inference_mesh.Compute.Block.{TransformerBlock, forward_with_kv_cache}
use inference_mesh.Compute.Block.Load.{load_from_safetensors, load_block_from_vb, linear_no_bias}
use inference_mesh.Compute.Block.Shaped.{IsFitted, IsKept, forward_with_kv_cache-IsKept}
use inference_mesh.Compute.Block.Fitted.{FitsTogether}
use inference_mesh.Compute.Shapes.{Gives, Is}
use inference_mesh.Compute.Engine
use inference_mesh.Compute.Engine.{ComputeEngine, load_blocks, load_layers, process_terminal_pass}
use inference_mesh.Tests.Shapes.{
  Shape, shapes, holds_f32, linear-Maps, shapes-HasLayout, shapes-HasArithmetic,
}

-- Four heads of size 2, of which two each share keys and values.
abbrev pub grouped_config : ModelConfig ℕ
grouped_config = record {
  hidden_size = 8;
  intermediate_size = 6;
  num_attention_heads = 4;
  num_key_value_heads_given = some 2;
  num_hidden_layers = 5;
  rms_norm_eps = 0;
  rope_theta = 10000;
  max_position_embeddings_given = none;
  max_position_embeddings_fallback = 2048;
  model_type = none;
}

pub grouped_config-FitsTogether : FitsTogether grouped_config 1 2
unfolding num_key_value_heads
grouped_config-FitsTogether = record {
  some_heads = omega arith;
  some_kv_heads = omega arith;
  some_half = omega arith;
  small = omega arith;
  small_kv = omega arith;
  heads = refl;
  kv_heads = refl;
}

abbrev pub loaded : ComputeEngine shapes × Result {0} Unit
loaded = load_blocks shapes (Engine.new shapes) (codes "model") grouped_config 3 4

loaded_ok : loaded ≡ (loaded.0, ok tt)
unfolding load_blocks load_layers load_from_safetensors load_block_from_vb linear_no_bias
    Config.head_dim Config.from_config num_key_value_groups num_key_value_heads layers_between range
    Engine.new
loaded_ok = refl

abbrev grouped_block : TransformerBlock shapes
grouped_block = record {
  input_layernorm = (8 ∷ [], true);
  post_attention_layernorm = (8 ∷ [], true);
  q_proj = (8 ∷ 8 ∷ [], true);
  k_proj = (4 ∷ 8 ∷ [], true);
  v_proj = (4 ∷ 8 ∷ [], true);
  o_proj = (8 ∷ 8 ∷ [], true);
  gate_proj = (6 ∷ 8 ∷ [], true);
  up_proj = (6 ∷ 8 ∷ [], true);
  down_proj = (8 ∷ 6 ∷ [], true);
  n_heads = 4;
  n_kv_heads = 2;
  n_kv_groups = 2;
  head_dim = 2;
  hidden_size = 8;
  eps = 0;
  rope = record { head_dim = 2; theta = 10000 };
}

grouped_block-IsFitted : IsFitted shapes holds_f32 grouped_block 6 1
grouped_block-IsFitted = record {
  heads = (refl, refl, linear-Maps (grouped_block.o_proj) 8 8 refl);
  some_hidden = omega arith;
  even = refl;
  rope = refl;
  input_layernorm = (refl, refl);
  post_layernorm = (refl, refl);
  q_proj = linear-Maps (grouped_block.q_proj) 8 8 refl;
  k_proj = linear-Maps (grouped_block.k_proj) 4 8 refl;
  v_proj = linear-Maps (grouped_block.v_proj) 4 8 refl;
  gate_proj = linear-Maps (grouped_block.gate_proj) 6 8 refl;
  up_proj = linear-Maps (grouped_block.up_proj) 6 8 refl;
  down_proj = linear-Maps (grouped_block.down_proj) 8 6 refl;
}

-- One new position of three sequences after five that are in the cache.
abbrev cache : Shape
cache = (3 ∷ 2 ∷ 5 ∷ 2 ∷ [], true)

forward_with_kv_cache-IsKept_example :
    Gives
      (forward_with_kv_cache shapes grouped_block
        (3 ∷ 1 ∷ 8 ∷ [], true)
        none
        (3 ∷ 1 ∷ [], false)
        (some (cache, cache)))
      (λ r.
        Is shapes holds_f32 (3 ∷ 1 ∷ 8 ∷ []) r.0 × IsKept shapes holds_f32 grouped_block 3 6 r.1)
forward_with_kv_cache-IsKept_example =
    forward_with_kv_cache-IsKept shapes holds_f32 shapes-HasLayout shapes-HasArithmetic
      grouped_block 6 1 3 1 5 (3 ∷ 1 ∷ 8 ∷ [], true) (3 ∷ 1 ∷ [], false) (some (cache, cache))
      grouped_block-IsFitted (omega arith, omega arith, omega arith, omega arith) (refl, refl) refl
      ((refl, refl), (refl, refl))
