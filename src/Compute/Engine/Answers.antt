-- ===== src/Compute/Engine/Answers.antt =====
-- A worker that loaded its layers has an answer, of the right size, for every tensor of numbers of
-- the right shape (src/compute/src/engine.rs).
use inference_mesh.Base.{
  ℕ, zero, suc, ◌+◌, ◌*◌, ◌<◌, ◌≡◌, refl, sym, ap, ◌∙◌, u32_mod, u64_mod, Bool, none, List, [], ◌∷◌,
  length, get_elem?, ok, or_panic, arith,
}
use inference_mesh.Protocol.Schema.{Bytes}
use inference_mesh.Protocol.Dtype.{f32, element_size}
use inference_mesh.Compute.Candle.{Candle}
use inference_mesh.Compute.Config.{ModelConfig, num_key_value_heads}
use inference_mesh.Compute.Block.{TransformerBlock}
use inference_mesh.Compute.Block.Shaped.{forward-Has}
use inference_mesh.Compute.Block.Fitted.{FitsTogether, load_from_safetensors-Fits}
use inference_mesh.Compute.Shapes.{
  Gives, ◌>>>◌, Is, Is-shape, Has, Has-shape, HasLayout, HasArithmetic, HasWeights,
}
use inference_mesh.Compute.Engine.{
  ComputeEngine, load_blocks, read_outputs, first_output, process_terminal_pass,
}
use inference_mesh.Compute.Engine.Loaded.{AreLoaded, through, process_terminal_pass-load_blocks}

below-mul : (n d : ℕ) {m : ℕ} → 0 < d → n * d < m → n < m
below-mul n zero positive h = elim positive [ ]
below-mul n (suc d) positive h = omega (arith, h)

module _ (candle : Candle) (is_f32 : candle.Tensor → Bool) (layout : HasLayout candle is_f32)
    (arithmetic : HasArithmetic candle is_f32) (weights : HasWeights candle is_f32)
    (config : ModelConfig candle.F64) (half groups : ℕ)
    (fits : FitsTogether config half groups) where
  open candle use {Tensor, F64}

  through-Has :
      (path : Bytes) (layers : List ℕ) (blocks : List (TransformerBlock candle)) (s : ℕ)
      (x : Tensor)
      → AreLoaded candle path config layers blocks
      → 0 < s
      → s < u32_mod
      → Is candle is_f32 (1 ∷ s ∷ config.hidden_size ∷ []) x
      → Has candle is_f32 (through candle blocks x none) (1 ∷ s ∷ config.hidden_size ∷ [])
  through-Has path [] [] s x are positive short x_is = (x, refl, x_is)
  through-Has path [] (block ∷ blocks) s x are positive short x_is = elim are [ ]
  through-Has path (l ∷ ls) [] s x are positive short x_is = elim are [ ]
  through-Has path (l ∷ ls) (block ∷ blocks) s x (loaded, others) positive short x_is =
      let (fitted, same_hidden, same_heads, same_kv) =
        load_from_safetensors-Fits candle is_f32 weights config half groups fits path l block
          loaded in
      let shape : ℕ → List ℕ = λ n. 1 ∷ s ∷ n ∷ [] in
      let few : config.num_attention_heads < u64_mod =
        below-mul config.num_attention_heads (half + half) (omega (arith, fits.some_half))
          (omega (arith, fits.heads, fits.small)) in
      let few_kv : num_key_value_heads config < u64_mod =
        below-mul (num_key_value_heads config) (half + half) (omega (arith, fits.some_half))
          fits.small_kv in
      Has-shape candle is_f32
        (forward-Has candle is_f32 layout arithmetic block config.intermediate_size half 1 s x
          fitted
          (
            omega (arith, same_heads, few),
            omega (arith, same_kv, few_kv),
            omega (arith, short),
            positive,
          )
          short (Is-shape candle is_f32 x_is (ap shape (sym same_hidden))))
        (ap shape same_hidden)
      >>> λ next next_is. through-Has path ls blocks s next others positive short next_is

  read_outputs-one :
      (y : Tensor) (s : ℕ)
      → Is candle is_f32 (1 ∷ s ∷ config.hidden_size ∷ []) y
      → Gives
          (read_outputs candle y 0 1)
          (λ outputs. length (first_output outputs) ≡ s * config.hidden_size)
  unfolding read_outputs
  read_outputs-one y s y_is = layout.get_lem y 0 1 _ y_is (omega arith) >>> λ slice slice_is.
      layout.flatten_lem slice _ slice_is >>> λ flat flat_is.
      layout.to_cpu_lem flat _ flat_is >>> λ on_cpu on_cpu_is.
      layout.to_vec_lem on_cpu _ on_cpu_is >>> λ output output_is.
      (output ∷ [], refl, output_is ∙ omega arith)

  -- After the layers from start_layer to end_layer were loaded without an error from a model of
  -- sizes that fit together, a terminal pass through them of the `f32` numbers of one sequence of s
  -- hidden states, with 0 < s < 2 ^ 32, without a mask, always succeeds, and gives s * hidden_size
  -- numbers again: as many as the shape of the input has.
  pub process_terminal_pass-Gives :
      (e e' : ComputeEngine candle) (path : Bytes) (start_layer end_layer : ℕ)
      → load_blocks candle e path config start_layer end_layer ≡ (e', ok tt)
      → (bytes : Bytes) (s : ℕ) → 0 < s
      → s < u32_mod
      → length bytes ≡ s * config.hidden_size * element_size f32
      → Gives
          (process_terminal_pass candle e' start_layer end_layer bytes f32
            (1 ∷ s ∷ config.hidden_size ∷ [])
            none
            none
            none)
          (λ numbers. length numbers ≡ s * config.hidden_size)
  process_terminal_pass-Gives e e' path start_layer end_layer done bytes s positive short size =
      let (blocks, are, passes) =
        process_terminal_pass-load_blocks candle e e' path config start_layer end_layer done in
      let shape = 1 ∷ s ∷ config.hidden_size ∷ [] in
      rw (passes bytes f32 shape) (
        layout.from_raw_lem bytes shape (size ∙ omega arith) >>> λ x x_is.
        through-Has path _ blocks s x are positive short x_is >>> λ y y_is.
        rw (ap (λ ds. or_panic (get_elem? ds 0)) (y_is.0)) (
          read_outputs-one y s y_is >>> λ outputs outputs_is.
          (first_output outputs, refl, outputs_is)))
