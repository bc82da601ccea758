-- ===== src/Compute/Candle.antt =====
-- What src/compute takes from candle, the tensor library. Each operation makes a new tensor or
-- fails. The device is the same one throughout and is left out.
use inference_mesh.Base.{ℕ, List, Result, ok, err, [], ◌∷◌, tensor_error}
use inference_mesh.Protocol.Schema.{Bytes}
use inference_mesh.Protocol.Dtype.{Dtype}

pub record Candle : Type 1 where
  pub Tensor : Type 0
  pub Linear : Type 0
  pub F32 : Type 0
  pub F64 : Type 0
  -- Numbers.
  pub neg_infinity : F32
  pub zero : F32
  pub one : F32
  -- 1e-5 and 10000.0.
  pub small_eps : F64
  pub rope_base : F64
  pub div_f32 : F32 → F32 → F32
  pub div_f64 : F64 → F64 → F64
  pub powf : F64 → F64 → F64
  pub sqrt : F64 → F64
  pub from_bits : ℕ → F32
  pub usize_as_f64 : ℕ → F64
  pub f64_as_f32 : F64 → F32
  pub f32_as_f64 : F32 → F64
  -- The weights of a model: a part of them under a name, a tensor of a shape, the weight of a norm
  -- and a linear map. `zeros` takes its type from a tensor.
  pub VarBuilder : Type 0
  pub pp : Bytes → VarBuilder → VarBuilder
  pub get_weight : ℕ × ℕ → Bytes → VarBuilder → Result Tensor
  pub rms_norm_new : ℕ → F64 → VarBuilder → Result Tensor
  pub zeros : ℕ → Tensor → Result Tensor
  pub linear_new : Tensor → Tensor → Linear
  -- Weights that are not set yet, and those of the model at a path. A path is its text.
  pub new_weights : VarBuilder
  pub open_model : Bytes → Result VarBuilder
  -- Tensors from data, and back.
  pub from_vec : List F32 → List ℕ → Result Tensor
  pub from_raw_buffer : Bytes → Dtype → List ℕ → Result Tensor
  -- Tokens as a tensor, and the rows of a table of weights at them.
  pub from_tokens : List ℕ → Result Tensor
  pub embedding : Tensor → Tensor → Result Tensor
  pub arange : ℕ → ℕ → Result Tensor
  pub to_vec1 : Tensor → Result (List ℕ)
  -- Shapes.
  pub dims : Tensor → List ℕ
  pub reshape : List ℕ → Tensor → Result Tensor
  pub reshape_rest : List ℕ → Tensor → Result Tensor
  pub transpose : ℕ → ℕ → Tensor → Result Tensor
  pub transpose_last : Tensor → Result Tensor
  pub contiguous : Tensor → Result Tensor
  pub unsqueeze : ℕ → Tensor → Result Tensor
  pub expand : List ℕ → Tensor → Result Tensor
  pub repeat : List ℕ → Tensor → Result Tensor
  pub narrow : ℕ → ℕ → ℕ → Tensor → Result Tensor
  pub cat : List Tensor → ℕ → Result Tensor
  pub stack : List Tensor → ℕ → Result Tensor
  pub squeeze : ℕ → Tensor → Result Tensor
  pub flatten_all : Tensor → Result Tensor
  pub to_cpu : Tensor → Result Tensor
  pub to_f32 : Tensor → Result Tensor
  -- `Tensor::get`, which takes one index of the first dimension.
  pub get : Tensor → ℕ → Result Tensor
  -- Elements.
  pub add : Tensor → Tensor → Result Tensor
  pub mul : Tensor → Tensor → Result Tensor
  pub argmax : ℕ → Tensor → Result Tensor
  pub to_scalar : Tensor → Result ℕ
  pub matmul : Tensor → Tensor → Result Tensor
  pub broadcast_matmul : Tensor → Tensor → Result Tensor
  pub div_scalar : Tensor → F64 → Result Tensor
  pub neg : Tensor → Result Tensor
  pub cos : Tensor → Result Tensor
  pub sin : Tensor → Result Tensor
  pub silu : Tensor → Result Tensor
  pub softmax_last_dim : Tensor → Result Tensor
  pub rms_norm : Tensor → Tensor → F32 → Result Tensor
  pub linear : Linear → Tensor → Result Tensor

module _ (candle : Candle) where
  open candle use {Tensor, dims}

  -- `dims3`, and `dim(i)`.
  abbrev pub dims3_of : List ℕ → Result (ℕ × ℕ × ℕ)
  dims3_of (a ∷ b ∷ c ∷ []) = ok (a, b, c)
  dims3_of (a ∷ b ∷ c ∷ d ∷ ds) = err tensor_error
  dims3_of (a ∷ b ∷ []) = err tensor_error
  dims3_of (a ∷ []) = err tensor_error
  dims3_of [] = err tensor_error

  abbrev pub dims3 : Tensor → Result (ℕ × ℕ × ℕ)
  dims3 t = dims3_of (dims t)
