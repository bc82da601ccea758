-- ===== src/Compute/Block/Shaped.antt =====
-- A block keeps the shape of its input (src/compute/src/block.rs).
use inference_mesh.Base.{
  ℕ, ◌+◌, ◌*◌, ◌%◌, ◌<◌, ◌≡◌, refl, sym, ap, subst, ◌∙◌, u32_mod, u64_mod, Bool, Option, none, some,
  [], ◌∷◌, arith,
}
use inference_mesh.Compute.Candle.{Candle, dims3, dims3_of}
use inference_mesh.Compute.Rope
use inference_mesh.Compute.Rope.Shaped.{apply-Has}
use inference_mesh.Compute.Block.{
  TransformerBlock, add_usize, with_past, feed_forward, forward_inner, forward,
  forward_with_kv_cache,
}
use inference_mesh.Compute.Block.Attended.{to_heads-Has, attend-Has, FitHeads, FitSizes}
use inference_mesh.Compute.Shapes.{
  Gives, ◌>>>◌, count, Is, Is-shape, Has, Has-shape, Maps, HasLayout, HasArithmetic,
}

module _ (candle : Candle) (is_f32 : candle.Tensor → Bool) where
  open candle use {Tensor, F64, dims}

  -- The sizes of a block's weights fit one another, and half is half of the size of a head.
  pub record IsFitted (block : TransformerBlock candle) (intermediate half : ℕ) : Type 0 where
    pub heads : FitHeads candle is_f32 block
    pub some_hidden : 0 < block.hidden_size
    pub even : block.head_dim ≡ half + half
    pub rope : block.rope.head_dim ≡ block.head_dim
    pub input_layernorm : Is candle is_f32 (block.hidden_size ∷ []) block.input_layernorm
    pub post_layernorm : Is candle is_f32 (block.hidden_size ∷ []) block.post_attention_layernorm
    pub q_proj : Maps candle is_f32 block.hidden_size (block.n_heads * block.head_dim) block.q_proj
    pub k_proj :
        Maps candle is_f32 block.hidden_size (block.n_kv_heads * block.head_dim) block.k_proj
    pub v_proj :
        Maps candle is_f32 block.hidden_size (block.n_kv_heads * block.head_dim) block.v_proj
    pub gate_proj : Maps candle is_f32 block.hidden_size intermediate block.gate_proj
    pub up_proj : Maps candle is_f32 block.hidden_size intermediate block.up_proj
    pub down_proj : Maps candle is_f32 intermediate block.hidden_size block.down_proj

  -- The keys or values of p positions.
  abbrev pub IsCached : TransformerBlock candle → ℕ → ℕ → Tensor → Type 0
  IsCached block b p = Is candle is_f32 (b ∷ block.n_kv_heads ∷ p ∷ block.head_dim ∷ [])

  -- What a block has kept of p positions: nothing, if there were none.
  abbrev pub IsPast : TransformerBlock candle → ℕ → ℕ → Option (Tensor × Tensor) → Type 0
  IsPast block b p none = p ≡ 0
  IsPast block b p (some (k, v)) = IsCached block b p k × IsCached block b p v

  -- What it keeps then.
  abbrev pub IsKept : TransformerBlock candle → ℕ → ℕ → Option (Tensor × Tensor) → Type 0
  IsKept block b p none = ⊥
  IsKept block b p (some (k, v)) = IsCached block b p k × IsCached block b p v

  module _ (layout : HasLayout candle is_f32) (arithmetic : HasArithmetic candle is_f32) where
    feed_forward-Has :
        (block : TransformerBlock candle) (n half b s : ℕ) (x : Tensor)
        → IsFitted block n half
        → Is candle is_f32 (b ∷ s ∷ block.hidden_size ∷ []) x
        → Has candle is_f32 (feed_forward candle block x) (b ∷ s ∷ block.hidden_size ∷ [])
    unfolding feed_forward
    feed_forward-Has block n half b s x fitted x_is =
        arithmetic.rms_norm_lem x _ _ b s block.hidden_size x_is fitted.post_layernorm
          fitted.some_hidden
        >>> λ normed normed_is. fitted.gate_proj normed b s normed_is >>> λ gated gated_is.
            arithmetic.silu_lem gated _ gated_is >>> λ gate gate_is.
            fitted.up_proj normed b s normed_is >>> λ up up_is.
            arithmetic.mul_lem gate up _ gate_is up_is >>> λ product product_is.
            fitted.down_proj product b s product_is >>> λ mlp mlp_is.
            arithmetic.add_lem x mlp _ x_is mlp_is

    with_past-Gives :
        (block : TransformerBlock candle) (past : Option (Tensor × Tensor)) (b s p : ℕ)
        (k v : Tensor)
        → IsPast block b p past
        → IsCached block b s k
        → IsCached block b s v
        → Gives
            (with_past candle past k v)
            (λ r. IsCached block b (p + s) r.0 × IsCached block b (p + s) r.1 × (r.2 ≡ p))
    with_past-Gives block none b s p k v p_is k_is v_is =
        let longer : s ≡ p + s = omega (arith, p_is) in
        (
          (k, v, 0),
          refl,
          (
            Is-shape candle is_f32 k_is
                (ap (λ n. b ∷ block.n_kv_heads ∷ n ∷ block.head_dim ∷ []) longer),
            Is-shape candle is_f32 v_is
                (ap (λ n. b ∷ block.n_kv_heads ∷ n ∷ block.head_dim ∷ []) longer),
            sym p_is,
          ),
        )
    with_past-Gives block (some (past_k, past_v)) b s p k v (pk_is, pv_is) k_is v_is =
        layout.cat_third_lem past_k k b block.n_kv_heads p s block.head_dim pk_is k_is
        >>> λ k_full k_full_is.
            layout.cat_third_lem past_v v b block.n_kv_heads p s block.head_dim pv_is v_is
            >>> λ v_full v_full_is.
                rw (pk_is.0) ((k_full, v_full, p), refl, (k_full_is, v_full_is, refl))

    turned :
        (block : TransformerBlock candle) (n half b s : ℕ) (q k positions : Tensor)
        → IsFitted block n half
        → 0 < s
        → Is candle is_f32 (b ∷ block.n_heads ∷ s ∷ block.head_dim ∷ []) q
        → IsCached block b s k
        → dims positions ≡ b ∷ s ∷ []
        → Gives (Rope.apply candle block.rope q k positions) (λ r.
          Is candle is_f32 (b ∷ block.n_heads ∷ s ∷ block.head_dim ∷ []) r.0
          × IsCached block b s r.1)
    turned block n half b s q k positions fitted positive q_is k_is p_is =
        subst
          (λ d.
            Is candle is_f32 (b ∷ block.n_heads ∷ s ∷ d ∷ []) q
            → Is candle is_f32 (b ∷ block.n_kv_heads ∷ s ∷ d ∷ []) k
            → Gives (Rope.apply candle block.rope q k positions) (λ r.
              Is candle is_f32 (b ∷ block.n_heads ∷ s ∷ d ∷ []) r.0
              × Is candle is_f32 (b ∷ block.n_kv_heads ∷ s ∷ d ∷ []) r.1))
          (sym fitted.even)
          (λ q_is k_is.
            apply-Has candle is_f32 layout arithmetic block.rope q k positions b block.n_heads
              block.n_kv_heads s half (fitted.rope ∙ fitted.even) positive q_is k_is p_is)
          q_is k_is

    kept-Has :
        (block : TransformerBlock candle) (b s p : ℕ) (full : Tensor)
        → p + s < u64_mod
        → IsCached block b (p + s) full
        → Has candle is_f32
            (candle.reshape (b ∷ block.n_kv_heads ∷ add_usize p s ∷ block.head_dim ∷ []) full)
            (b ∷ block.n_kv_heads ∷ (p + s) ∷ block.head_dim ∷ [])
    kept-Has block b s p full small full_is =
        let same : b ∷ block.n_kv_heads ∷ (p + s) ∷ block.head_dim ∷ []
            ≡ b ∷ block.n_kv_heads ∷ add_usize p s ∷ block.head_dim ∷ [] =
          ap (λ n. b ∷ block.n_kv_heads ∷ n ∷ block.head_dim ∷ []) (omega (arith, small)) in
        Has-shape candle is_f32 (layout.reshape_lem full _ _ full_is (ap count same)) (sym same)

    forward_inner-Gives :
        (block : TransformerBlock candle) (n half b s p : ℕ) (x positions : Tensor)
        (past : Option (Tensor × Tensor))
        → IsFitted block n half
        → FitSizes candle is_f32 block b s p
        → Is candle is_f32 (b ∷ s ∷ block.hidden_size ∷ []) x
        → dims positions ≡ b ∷ s ∷ []
        → IsPast block b p past
        → Gives (forward_inner candle block x none positions past) (λ r.
          Is candle is_f32 (b ∷ s ∷ block.hidden_size ∷ []) r.0 × IsKept block b (p + s) r.1)
    unfolding forward_inner
    forward_inner-Gives block n half b s p x positions past fitted sizes x_is p_is past_is =
        let heads = fitted.heads in
        let d_is = fitted.even in
        let hidden = block.hidden_size in
        rw (ap (dims3_of candle) (x_is.0)) (
          arithmetic.rms_norm_lem x _ _ b s hidden x_is fitted.input_layernorm fitted.some_hidden
          >>> λ normed normed_is. fitted.q_proj normed b s normed_is >>> λ q0 q0_is.
              fitted.k_proj normed b s normed_is >>> λ k0 k0_is.
              fitted.v_proj normed b s normed_is >>> λ v0 v0_is.
              to_heads-Has candle is_f32 layout arithmetic q0 b s block.n_heads block.head_dim q0_is
              >>> λ q1 q1_is.
                  to_heads-Has candle is_f32 layout arithmetic k0 b s block.n_kv_heads
                    block.head_dim k0_is
                  >>> λ k1 k1_is.
                      to_heads-Has candle is_f32 layout arithmetic v0 b s block.n_kv_heads
                        block.head_dim v0_is
                      >>> λ v1 v1_is.
                          turned block n half b s q1 k1 positions fitted (sizes.3) q1_is k1_is p_is
                          >>> λ qk qk_is.
                              with_past-Gives block past b s p qk.1 v1 past_is qk_is.1 v1_is
                              >>> λ full full_is. rw (full_is.2) (
                                  attend-Has candle is_f32 layout arithmetic block b s p qk.0 full.0
                                    full.1 heads sizes qk_is.0 full_is.0 full_is.1
                                  >>> λ attn attn_is.
                                      arithmetic.add_lem x attn _ x_is attn_is >>> λ mid mid_is.
                                      feed_forward-Has block n half b s mid fitted mid_is
                                      >>> λ out out_is.
                                          kept-Has block b s p full.0 (sizes.2) full_is.0
                                          >>> λ new_k new_k_is.
                                              kept-Has block b s p full.1 (sizes.2) full_is.1
                                              >>> λ new_v new_v_is. (
                                                (out, some (new_k, new_v)),
                                                refl,
                                                (out_is, (new_k_is, new_v_is)),
                                              )))

    -- Where the shapes of candle's tensors are as documented, a block whose weights fit one another,
    -- with a cache of p positions and without a mask, turns the hidden states of s > 0 positions of b
    -- sequences into hidden states of the same shape, and its new cache holds p + s positions, if the
    -- sizes stay below 2 ^ 64. All elements are `f32`.
    pub forward_with_kv_cache-IsKept :
        (block : TransformerBlock candle) (n half b s p : ℕ) (x positions : Tensor)
        (past : Option (Tensor × Tensor))
        → IsFitted block n half
        → FitSizes candle is_f32 block b s p
        → Is candle is_f32 (b ∷ s ∷ block.hidden_size ∷ []) x
        → dims positions ≡ b ∷ s ∷ []
        → IsPast block b p past
        → Gives (forward_with_kv_cache candle block x none positions past) (λ r.
          Is candle is_f32 (b ∷ s ∷ block.hidden_size ∷ []) r.0 × IsKept block b (p + s) r.1)
    unfolding forward_with_kv_cache
    forward_with_kv_cache-IsKept block n half b s p x positions past fitted sizes x_is p_is
          past_is =
        forward_inner-Gives block n half b s p x positions past fitted sizes x_is p_is past_is

    pub forward-Has :
        (block : TransformerBlock candle) (n half b s : ℕ) (x : Tensor)
        → IsFitted block n half
        → FitSizes candle is_f32 block b s 0
        → s < u32_mod
        → Is candle is_f32 (b ∷ s ∷ block.hidden_size ∷ []) x
        → Has candle is_f32 (forward candle block x none) (b ∷ s ∷ block.hidden_size ∷ [])
    unfolding forward
    forward-Has block n half b s x fitted sizes short x_is =
        let no_wrap : s % u32_mod ≡ s = omega (arith, short) in
        let sizes_of : Gives (dims3 candle x) (λ r. r ≡ (b, s, block.hidden_size)) =
          ((b, s, block.hidden_size), ap (dims3_of candle) x_is.0, refl) in
        sizes_of >>> λ r r_is.
        rw (r_is, no_wrap)
          (layout.arange_lem s >>> λ range range_is.
            layout.unsqueeze_integers_lem range s range_is >>> λ row row_is.
            layout.repeat_lem row b s row_is >>> λ positions positions_is.
            forward_inner-Gives block n half b s 0 x positions none fitted sizes x_is positions_is
              refl
            >>> λ out out_is. (out.0, refl, out_is.0))
