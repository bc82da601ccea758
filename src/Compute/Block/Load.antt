-- ===== src/Compute/Block/Load.antt =====
-- src/compute/src/block.rs: how a block takes its weights from a model. Which file of a path holds
-- the model, and reading it, is `open_model`.
use inference_mesh.Base.{ℕ, some, ◌++◌, Result, ok, ◌>>=◌}
use inference_mesh.Protocol.Schema.{Bytes}
use inference_mesh.P2p.Dht.{codes, show_u32}
use inference_mesh.Compute.Candle.{Candle}
use inference_mesh.Compute.Config
use inference_mesh.Compute.Config.{ModelConfig, num_key_value_heads, num_key_value_groups}
use inference_mesh.Compute.Block.{TransformerBlock, mul_usize}

module _ (candle : Candle) where
  open candle use {Tensor, Linear, F32, F64, VarBuilder, pp}

  unfoldable pub linear_no_bias : ℕ → ℕ → VarBuilder → Result Linear
  linear_no_bias in_dim out_dim vb = do
    ws ← candle.get_weight (out_dim, in_dim) (codes "weight") vb
    bs ← candle.zeros out_dim ws
    ok (candle.linear_new ws bs)

  unfoldable pub load_block_from_vb :
      VarBuilder → ModelConfig F64 → Result (TransformerBlock candle)
  unfolding linear_no_bias num_key_value_heads num_key_value_groups Config.head_dim
      Config.from_config
  load_block_from_vb vb config = do
    let n_heads = config.num_attention_heads
    let n_kv_heads = num_key_value_heads config
    n_kv_groups ← num_key_value_groups config
    head_dim ← Config.head_dim config
    let eps = candle.f64_as_f32 config.rms_norm_eps
    rope ← Config.from_config config
    input_layernorm ←
        candle.rms_norm_new config.hidden_size (candle.f32_as_f64 eps)
          (pp (codes "input_layernorm") vb)
    post_attention_layernorm ←
        candle.rms_norm_new config.hidden_size (candle.f32_as_f64 eps)
          (pp (codes "post_attention_layernorm") vb)
    q_proj ←
        linear_no_bias config.hidden_size (mul_usize n_heads head_dim)
          (pp (codes "self_attn.q_proj") vb)
    k_proj ←
        linear_no_bias config.hidden_size (mul_usize n_kv_heads head_dim)
          (pp (codes "self_attn.k_proj") vb)
    v_proj ←
        linear_no_bias config.hidden_size (mul_usize n_kv_heads head_dim)
          (pp (codes "self_attn.v_proj") vb)
    o_proj ←
        linear_no_bias (mul_usize n_heads head_dim) config.hidden_size
          (pp (codes "self_attn.o_proj") vb)
    gate_proj ←
        linear_no_bias config.hidden_size config.intermediate_size (pp (codes "mlp.gate_proj") vb)
    up_proj ←
        linear_no_bias config.hidden_size config.intermediate_size (pp (codes "mlp.up_proj") vb)
    down_proj ←
        linear_no_bias config.intermediate_size config.hidden_size (pp (codes "mlp.down_proj") vb)
    ok (record {
      input_layernorm = input_layernorm;
      post_attention_layernorm = post_attention_layernorm;
      q_proj = q_proj;
      k_proj = k_proj;
      v_proj = v_proj;
      o_proj = o_proj;
      gate_proj = gate_proj;
      up_proj = up_proj;
      down_proj = down_proj;
      n_heads = n_heads;
      n_kv_heads = n_kv_heads;
      n_kv_groups = n_kv_groups;
      head_dim = head_dim;
      hidden_size = config.hidden_size;
      eps = eps;
      rope = rope;
    })

  unfoldable pub load_from_safetensors :
      Bytes → ModelConfig F64 → ℕ → Result (TransformerBlock candle)
  unfolding load_block_from_vb show_u32
  load_from_safetensors model_path config layer_idx = do
    vb ← candle.open_model model_path
    load_block_from_vb (pp (codes "model.layers." ++ show_u32 layer_idx) vb) config

  -- The sizes of the test block, with the numbers 1e-5 and 10000.0.
  abbrev pub test_config : F64 → F64 → ModelConfig F64
  test_config eps theta = record {
    hidden_size = 128;
    intermediate_size = 256;
    num_attention_heads = 4;
    num_key_value_heads_given = some 4;
    num_hidden_layers = 2;
    rms_norm_eps = eps;
    rope_theta = theta;
    max_position_embeddings_given = some 2048;
    max_position_embeddings_fallback = 2048;
    model_type = some (codes "llama");
  }

  unfoldable pub create_test_block : Result (TransformerBlock candle)
  unfolding load_block_from_vb
  create_test_block =
      load_block_from_vb candle.new_weights (test_config candle.small_eps candle.rope_base)
