-- ===== src/Compute/Engine.antt =====
-- src/compute/src/engine.rs: the blocks that a worker has loaded, and the pass of tensors through
-- them. A `Vec<f32>` is the list of the bit patterns of its elements.
pub mod Loaded
pub mod Answers
use inference_mesh.Base.{
  ℕ, zero, suc, ◌+◌, Option, none, some, List, [], ◌∷◌, map, get_elem?, ℕ_discrete, Result, ok, err,
  panic, or_panic, ok_or, layer_not_loaded, ◌>>=◌,
}
use inference_mesh.Base.HashMap
use inference_mesh.Base.HashMap.{HashMap}
use inference_mesh.Protocol.Schema.{Bytes}
use inference_mesh.Protocol.Dtype.{Dtype}
use inference_mesh.P2p.Dht.{layers_between}
use inference_mesh.Compute.Candle.{Candle}
use inference_mesh.Compute.Config.{ModelConfig}
use inference_mesh.Compute.Block
use inference_mesh.Compute.Block.{TransformerBlock}
use inference_mesh.Compute.Block.Load.{load_from_safetensors, create_test_block}

-- `into_iter().next().unwrap_or_default()`.
abbrev pub first_output : List (List ℕ) → List ℕ
first_output [] = []
first_output (output ∷ outputs) = output

module _ (candle : Candle) where
  open candle use {Tensor, F64}

  pub record ComputeEngine : Type 0 where
    pub blocks : HashMap ℕ (TransformerBlock candle)
    pub config : Option (ModelConfig F64)

  unfoldable pub new : ComputeEngine
  new = record { blocks = []; config = none }

  abbrev pub insert_block : ComputeEngine → ℕ → TransformerBlock candle → ComputeEngine
  insert_block e layer block = record e { blocks = HashMap.insert ℕ_discrete layer block e.blocks }

  -- The loop of `load_blocks`: the engine after it, and whether it came to its end.
  unfoldable pub load_layers :
      ComputeEngine → Bytes → ModelConfig F64 → List ℕ → ComputeEngine × Result {0} Unit
  load_layers e model_path config [] = (e, ok tt)
  load_layers e model_path config (layer ∷ layers) =
      elim (load_from_safetensors candle model_path config layer) [
        | ok block ↦ load_layers (insert_block e layer block) model_path config layers
        | err why ↦ (e, err why)
        | panic ↦ (e, panic)
      ]

  unfoldable pub load_blocks :
      ComputeEngine → Bytes → ModelConfig F64 → ℕ → ℕ → ComputeEngine × Result {0} Unit
  unfolding load_layers layers_between
  load_blocks e model_path config start_layer end_layer =
      load_layers (record e { config = some config }) model_path config
        (layers_between start_layer end_layer)

  unfoldable pub load_test_block : ComputeEngine → ℕ → Result ComputeEngine
  load_test_block e layer = do block ← create_test_block candle; ok (insert_block e layer block)

  unfoldable pub forward : ComputeEngine → ℕ → Tensor → Option Tensor → Result Tensor
  forward e layer hidden_states mask = do
    block ← ok_or (HashMap.get ℕ_discrete layer e.blocks) (layer_not_loaded layer)
    Block.forward candle block hidden_states mask

  -- The loop over the layers.
  unfoldable pub run_layers : ComputeEngine → List ℕ → Tensor → Option Tensor → Result Tensor
  unfolding forward
  run_layers e [] current mask = ok current
  run_layers e (layer ∷ layers) current mask =
      forward e layer current mask >>= λ next. run_layers e layers next mask

  abbrev pub Entry : Type 0
  Entry = Bytes × Dtype × List ℕ

  -- Every tensor is read with the type of the first.
  unfoldable pub read_tensors : Dtype → List Entry → Result (List Tensor)
  read_tensors dtype [] = ok []
  read_tensors dtype ((bytes, own_dtype, shape) ∷ entries) = do
    t ← candle.from_raw_buffer bytes dtype shape
    ts ← read_tensors dtype entries
    ok (t ∷ ts)

  abbrev pub join : List Tensor → Result Tensor
  join (t ∷ []) = ok t
  join [] = candle.stack [] 0
  join (t ∷ u ∷ ts) = candle.stack (t ∷ u ∷ ts) 0

  -- A mask is used only if all three parts of it are given.
  abbrev pub read_mask : Option Bytes → Option Dtype → Option (List ℕ) → Result (Option Tensor)
  read_mask (some md) (some mdt) (some ms) = do m ← candle.from_raw_buffer md mdt ms; ok (some m)
  read_mask (some md) (some mdt) none = ok none
  read_mask (some md) none ms = ok none
  read_mask none mdt ms = ok none

  -- The loop over the first dimension, with the number of rounds that are left.
  unfoldable pub read_outputs : Tensor → ℕ → ℕ → Result (List (List ℕ))
  read_outputs current i zero = ok []
  read_outputs current i (suc left) = do
    slice ← candle.get current i
    flat ← candle.flatten_all slice
    on_cpu ← candle.to_cpu flat
    output ← candle.to_vec1 on_cpu
    outputs ← read_outputs current (i + 1) left
    ok (output ∷ outputs)

  unfoldable pub batched_process_terminal_pass :
      ComputeEngine
      → ℕ
      → ℕ
      → List Entry
      → Option Bytes
      → Option Dtype
      → Option (List ℕ)
      → Result (List (List ℕ))
  unfolding read_tensors run_layers layers_between read_outputs
  batched_process_terminal_pass e start_layer end_layer [] mask_data mask_dtype mask_shape = ok []
  batched_process_terminal_pass e start_layer end_layer (first ∷ entries) mask_data mask_dtype
        mask_shape =
      do
        tensors ← read_tensors first.1 (first ∷ entries)
        batch ← join tensors
        mask ← read_mask mask_data mask_dtype mask_shape
        current ← run_layers e (layers_between start_layer end_layer) batch mask
        b ← or_panic (get_elem? (candle.dims current) 0)
        read_outputs current 0 b

  unfoldable pub process_terminal_pass :
      ComputeEngine
      → ℕ
      → ℕ
      → Bytes
      → Dtype
      → List ℕ
      → Option Bytes
      → Option Dtype
      → Option (List ℕ)
      → Result (List ℕ)
  unfolding batched_process_terminal_pass
  process_terminal_pass e start_layer end_layer bytes dtype shape mask_data mask_dtype mask_shape =
      do
        results ←
            batched_process_terminal_pass e start_layer end_layer ((bytes, dtype, shape) ∷ [])
              mask_data mask_dtype mask_shape
        ok (first_output results)
