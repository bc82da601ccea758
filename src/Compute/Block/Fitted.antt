-- ===== src/Compute/Block/Fitted.antt =====
-- A block that was loaded from a model of sizes that fit fits (src/compute/src/block.rs).
use native.Mathlib.Nat.{mul-div_cancel, mul_comm, mul-pos}
use inference_mesh.Base.{
  ℕ, zero, suc, ◌+◌, ◌*◌, ◌/◌, ◌<◌, ◌≡◌, refl, sym, ap, subst, ◌∙◌, u64_mod, Bool, ok, arith,
}
use inference_mesh.Protocol.Schema.{Bytes}
use inference_mesh.Compute.Candle.{Candle}
use inference_mesh.Compute.Config
use inference_mesh.Compute.Config.{
  ModelConfig, RoPe, div_usize, num_key_value_heads, num_key_value_groups,
}
use inference_mesh.Compute.Block.{TransformerBlock, mul_usize}
use inference_mesh.Compute.Block.Load.{linear_no_bias, load_block_from_vb, load_from_safetensors}
use inference_mesh.Compute.Block.Shaped.{IsFitted}
use inference_mesh.Compute.Shapes.{Keeps, Keeps-then, Keeps-ok, Maps, HasWeights}

div_usize-mul : (h d : ℕ) → 0 < h → div_usize (h * d) h ≡ ok d
div_usize-mul zero d h = elim h [ ]
div_usize-mul (suc h) d positive =
    ap ok (ap (λ n. n / suc h) (mul_comm (suc h) d) ∙ mul-div_cancel d positive)

module _ {F : Type 0} where
  -- `half` is half of the size of a head, and `groups` the number of heads that share keys.
  pub record FitsTogether (config : ModelConfig F) (half groups : ℕ) : Type 0 where
    pub some_heads : 0 < config.num_attention_heads
    pub some_kv_heads : 0 < num_key_value_heads config
    pub some_half : 0 < half
    pub small : config.hidden_size < u64_mod
    pub small_kv : num_key_value_heads config * (half + half) < u64_mod
    pub heads : config.num_attention_heads * (half + half) ≡ config.hidden_size
    pub kv_heads : num_key_value_heads config * groups ≡ config.num_attention_heads

module _ (candle : Candle) (is_f32 : candle.Tensor → Bool)
    (weights : HasWeights candle is_f32) where
  open candle use {Tensor, F64, Linear, VarBuilder, dims}

  linear_no_bias-Maps :
      (from to : ℕ) (vb : VarBuilder)
      → Keeps (linear_no_bias candle from to vb) (Maps candle is_f32 from to)
  unfolding linear_no_bias
  linear_no_bias-Maps from to vb = Keeps-then _ (weights.get_weight_lem to from _ vb) (λ ws ws_is.
      Keeps-then _ (weights.zeros_lem to ws ws_is.1)
        (λ bs bs_is. Keeps-ok _ refl (weights.linear_new_lem ws bs to from ws_is bs_is)))

  module _ (config : ModelConfig F64) (half groups : ℕ)
      (fits : FitsTogether config half groups) where
    head_dim_fits : Config.head_dim config ≡ ok (half + half)
    unfolding Config.head_dim
    head_dim_fits =
        ap (λ n. div_usize n config.num_attention_heads) (sym fits.heads)
        ∙ div_usize-mul config.num_attention_heads (half + half) fits.some_heads

    groups_fit : num_key_value_groups config ≡ ok groups
    unfolding num_key_value_groups
    groups_fit =
        ap (λ n. div_usize n (num_key_value_heads config)) (sym fits.kv_heads)
        ∙ div_usize-mul (num_key_value_heads config) groups fits.some_kv_heads

    rope_fits : Keeps (Config.from_config config) (λ r. r.head_dim ≡ half + half)
    unfolding Config.from_config Config.new
    rope_fits = rw head_dim_fits (Keeps-ok _ refl refl)

    abbrev pub Fits : TransformerBlock candle → Type 0
    Fits block =
        IsFitted candle is_f32 block config.intermediate_size half
        × (block.hidden_size ≡ config.hidden_size)
        × (block.n_heads ≡ config.num_attention_heads)
        × (block.n_kv_heads ≡ num_key_value_heads config)

    pub load_block_from_vb-Fits :
        (vb : VarBuilder) → Keeps (load_block_from_vb candle vb config) Fits
    unfolding load_block_from_vb
    load_block_from_vb-Fits vb =
        let kv = num_key_value_heads config in
        let h = config.num_attention_heads in
        let size = config.hidden_size in
        let wide = config.intermediate_size in
        Keeps-then _ (Keeps-ok (λ g. g ≡ groups) groups_fit refl) (λ g g_is.
          Keeps-then _ (Keeps-ok (λ d. d ≡ half + half) head_dim_fits refl) (λ d d_is.
            let all : h * d ≡ size = ap (λ n. h * n) d_is ∙ fits.heads in
            let all_q : mul_usize h d ≡ h * d = omega (arith, all, fits.small) in
            let all_kv : mul_usize kv d ≡ kv * d =
              ap (mul_usize kv) d_is
              ∙ (omega (arith, fits.small_kv) ∙ ap (λ n. kv * n) (sym d_is)) in
            Keeps-then _ rope_fits (λ rope rope_is.
              Keeps-then _ (weights.rms_norm_new_lem size _ _) (λ input input_is.
                Keeps-then _ (weights.rms_norm_new_lem size _ _) (λ post post_is.
                  Keeps-then _ (linear_no_bias-Maps size (mul_usize h d) _) (λ q q_is.
                    Keeps-then _ (linear_no_bias-Maps size (mul_usize kv d) _) (λ k k_is.
                      Keeps-then _ (linear_no_bias-Maps size (mul_usize kv d) _) (λ v v_is.
                        Keeps-then _ (linear_no_bias-Maps (mul_usize h d) size _) (λ o o_is.
                          Keeps-then _ (linear_no_bias-Maps size wide _) (λ gate gate_is.
                            Keeps-then _ (linear_no_bias-Maps size wide _) (λ up up_is.
                              Keeps-then _ (linear_no_bias-Maps wide size _) (λ down down_is.
                                Keeps-ok Fits refl (
                                  record {
                                    heads = (
                                      ap (λ n. kv * n) g_is ∙ fits.kv_heads,
                                      all,
                                      subst (λ n. Maps candle is_f32 n size o) (all_q ∙ all) o_is,
                                    );
                                    some_hidden =
                                        subst (λ n. 0 < n) fits.heads
                                          (mul-pos fits.some_heads (omega (arith, fits.some_half)));
                                    even = d_is;
                                    rope = rope_is ∙ sym d_is;
                                    input_layernorm = input_is;
                                    post_layernorm = post_is;
                                    q_proj = subst (λ n. Maps candle is_f32 size n q) all_q q_is;
                                    k_proj = subst (λ n. Maps candle is_f32 size n k) all_kv k_is;
                                    v_proj = subst (λ n. Maps candle is_f32 size n v) all_kv v_is;
                                    gate_proj = gate_is;
                                    up_proj = up_is;
                                    down_proj = down_is;
                                  },
                                  refl,
                                  refl,
                                  refl,
                                )))))))))))))

    pub load_from_safetensors-Fits :
        (path : Bytes) (layer : ℕ) → Keeps (load_from_safetensors candle path config layer) Fits
    unfolding load_from_safetensors
    load_from_safetensors-Fits path layer =
        let opens : Keeps (candle.open_model path) (λ vb. Unit {0}) = λ vb e. tt in
        Keeps-then (candle.open_model path) opens (λ vb done. load_block_from_vb-Fits _)
