-- ===== src/Compute/Block/Attended.antt =====
-- The shapes of the tensors in the attention of a block (src/compute/src/block.rs).
use inference_mesh.Base.{
  ℕ, ◌+◌, ◌*◌, ◌<◌, ◌≡◌, refl, sym, ap, subst, ◌∙◌, inl, inr, u64_mod, ltb, ◌==◌, Bool, Bool-cases,
  none, [], ◌∷◌, arith,
}
use inference_mesh.Compute.Candle.{Candle}
use inference_mesh.Compute.Block.{
  TransformerBlock, add_usize, mul_usize, mask_data, compute_attention_mask, repeat_kv, to_heads,
  attend,
}
use inference_mesh.Compute.Block.Mask.{length-mask_data}
use inference_mesh.Compute.Shapes.{
  ◌>>>◌, count, Is, Is-shape, Has, Has-shape, Maps, HasLayout, HasArithmetic,
}

module _ (candle : Candle) (is_f32 : candle.Tensor → Bool) where
  -- The sizes of b sequences of s positions after p fit into a block.
  abbrev pub FitSizes : TransformerBlock candle → ℕ → ℕ → ℕ → Type 0
  FitSizes block b s p =
      (b * block.n_heads < u64_mod) × (b * block.n_kv_heads < u64_mod) × (p + s < u64_mod) × (0 < s)

  -- Heads share keys and values in groups, and together they make the hidden state.
  abbrev pub FitHeads : TransformerBlock candle → Type 0
  FitHeads block =
      (block.n_kv_heads * block.n_kv_groups ≡ block.n_heads)
      × (block.n_heads * block.head_dim ≡ block.hidden_size)
      × Maps candle is_f32 block.hidden_size block.hidden_size block.o_proj

module _ (candle : Candle) (is_f32 : candle.Tensor → Bool) (layout : HasLayout candle is_f32)
    (arithmetic : HasArithmetic candle is_f32) where
  open candle use {Tensor, F64, dims}

  compute_attention_mask-Has :
      (heads s p : ℕ)
      → p + s < u64_mod
      → Has candle is_f32 (compute_attention_mask candle heads s p) (heads ∷ s ∷ add_usize p s ∷ [])
  unfolding compute_attention_mask
  compute_attention_mask-Has heads s p small =
      let total = add_usize p s in
      layout.from_vec_lem (mask_data candle.neg_infinity candle.zero total heads)
        (heads ∷ total ∷ total ∷ [])
        (omega (arith, length-mask_data candle.neg_infinity candle.zero total heads))
      >>> λ full full_is. elim (Bool-cases (ltb 0 p)) [
        | inl past ↦
            rw past
              (layout.narrow_second_lem full heads total total p s full_is (omega (arith, small)))
        | inr new ↦
            let none_past : p ≡ 0 = ground (arith, new) in
            rw new (
              full,
              refl,
              Is-shape candle is_f32 full_is
                  (ap (λ n. heads ∷ n ∷ total ∷ []) (omega (arith, small, none_past))),
            )
      ]

  repeat_kv-Has :
      (kv : Tensor) (n g s d : ℕ)
      → Is candle is_f32 (n ∷ s ∷ d ∷ []) kv
      → n * g < u64_mod
      → Has candle is_f32 (repeat_kv candle kv g) (n * g ∷ s ∷ d ∷ [])
  unfolding repeat_kv
  repeat_kv-Has kv n g s d kv_is small =
      let wraps : mul_usize n g ≡ n * g = omega (arith, small) in
      elim (Bool-cases (g == 1)) [
        | inl one ↦
            let is_one : g ≡ 1 = ground (arith, one) in
            rw one (
              kv,
              refl,
              Is-shape candle is_f32 kv_is (ap (λ m. m ∷ s ∷ d ∷ []) (rw is_one (omega arith))),
            )
        | inr more ↦
            rw (more, kv_is.0)
              (layout.unsqueeze_second_lem kv n _ kv_is >>> λ kv4 kv4_is.
                layout.expand_lem kv4 _ (n ∷ g ∷ s ∷ d ∷ []) kv4_is
                  (inl refl, (inr refl, (inl refl, (inl refl, tt))))
                >>> λ wide wide_is.
                    Has-shape candle is_f32
                      (layout.reshape_lem wide _ (mul_usize n g ∷ s ∷ d ∷ []) wide_is
                        (rw wraps (omega arith)))
                      (ap (λ m. m ∷ s ∷ d ∷ []) wraps))
      ]

  pub to_heads-Has :
      (x : Tensor) (b s n d : ℕ)
      → Is candle is_f32 (b ∷ s ∷ n * d ∷ []) x
      → Has candle is_f32 (to_heads candle b s n d x) (b ∷ n ∷ s ∷ d ∷ [])
  unfolding to_heads
  to_heads-Has x b s n d x_is =
      layout.reshape_lem x _ (b ∷ s ∷ n ∷ d ∷ []) x_is (omega arith) >>> λ shaped shaped_is.
      layout.transpose_lem shaped b s n d shaped_is >>> λ turned turned_is.
      layout.contiguous_lem turned _ turned_is

  pub attend-Has :
      (block : TransformerBlock candle) (b s p : ℕ) (q k v : Tensor)
      → FitHeads candle is_f32 block
      → FitSizes candle is_f32 block b s p
      → Is candle is_f32 (b ∷ block.n_heads ∷ s ∷ block.head_dim ∷ []) q
      → Is candle is_f32 (b ∷ block.n_kv_heads ∷ (p + s) ∷ block.head_dim ∷ []) k
      → Is candle is_f32 (b ∷ block.n_kv_heads ∷ (p + s) ∷ block.head_dim ∷ []) v
      → Has candle is_f32 (attend candle block b s none q k v p) (b ∷ s ∷ block.hidden_size ∷ [])
  unfolding attend
  attend-Has block b s p q k v (groups, heads, o_proj) (small_q, small_k, small_s, some_s) q_is k_is
        v_is =
      let h = mul_usize b block.n_heads in
      let kv = mul_usize b block.n_kv_heads in
      let t = add_usize p s in
      let d = block.head_dim in
      let g = block.n_kv_groups in
      let h_is : h ≡ b * block.n_heads = omega (arith, small_q) in
      let kv_is : kv ≡ b * block.n_kv_heads = omega (arith, small_k) in
      let t_is : t ≡ p + s = omega (arith, small_s) in
      let all : kv * g ≡ h =
        ap (λ n. n * g) kv_is ∙ (omega arith ∙ (ap (λ n. b * n) groups ∙ sym h_is)) in
      let flat : count (b ∷ block.n_kv_heads ∷ (p + s) ∷ d ∷ []) ≡ count (kv ∷ t ∷ d ∷ []) =
        rw (kv_is, t_is) (omega arith) in
      let small : kv * g < u64_mod = subst (λ n. n < u64_mod) (sym (all ∙ h_is)) small_q in
      layout.reshape_lem k _ (kv ∷ t ∷ d ∷ []) k_is flat >>> λ k_flat k_flat_is.
      layout.reshape_lem v _ (kv ∷ t ∷ d ∷ []) v_is flat >>> λ v_flat v_flat_is.
      layout.reshape_lem q _ (h ∷ s ∷ d ∷ []) q_is (rw h_is (omega arith)) >>> λ q_flat q_flat_is.
      Has-shape candle is_f32 (repeat_kv-Has k_flat kv g t d k_flat_is small)
        (ap (λ n. n ∷ t ∷ d ∷ []) all)
      >>> λ k_all k_all_is.
          Has-shape candle is_f32 (repeat_kv-Has v_flat kv g t d v_flat_is small)
            (ap (λ n. n ∷ t ∷ d ∷ []) all)
          >>> λ v_all v_all_is. layout.transpose_last_lem k_all h t d k_all_is >>> λ k_t k_t_is.
              layout.contiguous_lem k_t _ k_t_is >>> λ k_c k_c_is.
              arithmetic.matmul_lem q_flat k_c h s d t q_flat_is k_c_is >>> λ scores scores_is.
              arithmetic.div_scalar_lem scores _ _ scores_is >>> λ att att_is.
              compute_attention_mask-Has h s p small_s >>> λ causal causal_is.
              arithmetic.add_lem att causal _ att_is causal_is >>> λ masked masked_is.
              arithmetic.softmax_lem masked h s t masked_is (omega (arith, t_is, some_s))
              >>> λ weights weights_is.
                  arithmetic.matmul_lem weights v_all h s t d weights_is v_all_is
                  >>> λ mixed mixed_is.
                      layout.reshape_lem mixed _ (b ∷ block.n_heads ∷ s ∷ d ∷ []) mixed_is
                        (rw h_is (omega arith))
                      >>> λ split split_is.
                          layout.transpose_lem split b block.n_heads s d split_is
                          >>> λ turned turned_is.
                              layout.contiguous_lem turned _ turned_is >>> λ flat flat_is.
                              layout.reshape_lem flat _ (b ∷ s ∷ block.hidden_size ∷ []) flat_is
                                (rw (sym heads) (omega arith))
                              >>> λ joined joined_is. o_proj joined b s joined_is
