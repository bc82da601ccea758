-- ===== src/Compute/Config.antt =====
-- src/compute/src/types.rs: the shape of a tensor as it is sent, the sizes of a model, and the
-- rotary embedding of positions.
use inference_mesh.Base.{
  ℕ, zero, suc, ◌*◌, ◌/◌, ◌%◌, u64_mod, Option, none, some, List, Result, ok, panic, ◌>>=◌,
}
use inference_mesh.Protocol.Schema.{Bytes}
use inference_mesh.Protocol.Dtype.{Dtype, element_size}
use inference_mesh.Compute.MemoryCache.{product}

pub record TensorView : Type 0 where
  pub dtype : Dtype
  pub shape : List ℕ
  -- The field `data`.
  pub bytes : Bytes

unfoldable pub num_elements : TensorView → ℕ
num_elements view = product view.shape

unfoldable pub byte_len : TensorView → ℕ
unfolding num_elements
byte_len view = num_elements view * element_size view.dtype % u64_mod

-- `F` stands for `f64`.
pub record ModelConfig (F : Type 0) : Type 0 where
  pub hidden_size : ℕ
  pub intermediate_size : ℕ
  pub num_attention_heads : ℕ
  pub num_key_value_heads_given : Option ℕ
  pub num_hidden_layers : ℕ
  pub rms_norm_eps : F
  pub rope_theta : F
  pub max_position_embeddings_given : Option ℕ
  pub max_position_embeddings_fallback : ℕ
  pub model_type : Option Bytes

-- `/` on `usize`, which panics where the divisor is 0.
abbrev pub div_usize : ℕ → ℕ → Result ℕ
div_usize a zero = panic
div_usize a (suc b) = ok (a / suc b)

abbrev or_else : Option ℕ → ℕ → ℕ
or_else none n = n
or_else (some m) n = m

pub record RoPe (F : Type 0) : Type 0 where
  pub head_dim : ℕ
  pub theta : F

module _ {F : Type 0} where
  unfoldable pub head_dim : ModelConfig F → Result ℕ
  head_dim config = div_usize config.hidden_size config.num_attention_heads

  unfoldable pub num_key_value_heads : ModelConfig F → ℕ
  num_key_value_heads config = or_else config.num_key_value_heads_given config.num_attention_heads

  unfoldable pub num_key_value_groups : ModelConfig F → Result ℕ
  unfolding num_key_value_heads
  num_key_value_groups config = div_usize config.num_attention_heads (num_key_value_heads config)

  unfoldable pub max_position_embeddings : ModelConfig F → ℕ
  max_position_embeddings config =
      or_else config.max_position_embeddings_given config.max_position_embeddings_fallback

  unfoldable pub new : ℕ → F → ℕ → RoPe F
  new head_dim theta max_position = record { head_dim = head_dim; theta = theta }

  unfoldable pub from_config : ModelConfig F → Result (RoPe F)
  unfolding new head_dim max_position_embeddings
  from_config config = do
    dim ← head_dim config
    ok (new dim config.rope_theta (max_position_embeddings config))
