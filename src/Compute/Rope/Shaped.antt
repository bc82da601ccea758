-- ===== src/Compute/Rope/Shaped.antt =====
-- Turning queries and keys keeps their shapes (src/compute/src/types.rs).
use inference_mesh.Base.{
  ℕ, zero, suc, ◌+◌, ◌-◌, ◌/◌, ◌<◌, ◌≡◌, refl, ap, ◌∙◌, inl, inr, Bool, [], ◌∷◌, length, length-map,
  get_elem?, ok_or, tensor_error, arith,
}
use inference_mesh.Compute.Candle.{Candle}
use inference_mesh.Compute.Config.{RoPe}
use inference_mesh.Compute.Rope.{evens, inv_freq, rotate_half, embed, apply}
use inference_mesh.Compute.Shapes.{Gives, ◌>>>◌, Is, Has, HasLayout, HasArithmetic}

length-evens : (i left : ℕ) → length (evens i left) ≡ left
unfolding evens
length-evens i zero = refl
length-evens i (suc left) = ap suc (length-evens (i + 2) left)

module _ (candle : Candle) (is_f32 : candle.Tensor → Bool) (layout : HasLayout candle is_f32)
    (arithmetic : HasArithmetic candle is_f32) where
  open candle use {Tensor, F64, dims}

  length-inv_freq : (rope : RoPe F64) → length (inv_freq candle rope) ≡ (rope.head_dim + 1) / 2
  unfolding inv_freq
  length-inv_freq rope =
      length-map _ (evens 0 ((rope.head_dim + 1) / 2)) ∙ length-evens 0 ((rope.head_dim + 1) / 2)

  -- `half` is half of the last dimension.
  rotate_half-Has :
      (x : Tensor) (a b c half : ℕ)
      → Is candle is_f32 (a ∷ b ∷ c ∷ (half + half) ∷ []) x
      → Has candle is_f32 (rotate_half candle x) (a ∷ b ∷ c ∷ (half + half) ∷ [])
  unfolding rotate_half
  rotate_half-Has x a b c half x_is =
      let halved : (half + half) / 2 ≡ half = omega arith in
      let rest : (half + half) - half ≡ half = omega arith in
      rw (x_is.0, halved, rest)
        (layout.narrow_fourth_lem x a b c (half + half) 0 half x_is (omega arith) >>> λ x1 x1_is.
          layout.narrow_fourth_lem x a b c (half + half) half half x_is (omega arith)
          >>> λ x2 x2_is. arithmetic.neg_lem x2 _ x2_is >>> λ neg_x2 neg_is.
              layout.cat_fourth_lem neg_x2 x1 a b c half half neg_is x1_is)

  embed-Has :
      (x cos sin : Tensor) (a b c half : ℕ)
      → Is candle is_f32 (a ∷ b ∷ c ∷ (half + half) ∷ []) x
      → Is candle is_f32 (a ∷ b ∷ c ∷ (half + half) ∷ []) cos
      → Is candle is_f32 (a ∷ b ∷ c ∷ (half + half) ∷ []) sin
      → Has candle is_f32 (embed candle x cos sin) (a ∷ b ∷ c ∷ (half + half) ∷ [])
  unfolding embed
  embed-Has x cos sin a b c half x_is cos_is sin_is =
      arithmetic.mul_lem x cos _ x_is cos_is >>> λ straight straight_is.
      rotate_half-Has x a b c half x_is >>> λ rotated rotated_is.
      arithmetic.mul_lem rotated sin _ rotated_is sin_is >>> λ turned turned_is.
      arithmetic.add_lem straight turned _ straight_is turned_is

  -- The angles of all heads, expanded to the shape of the queries or keys.
  expand-Has :
      (x emb : Tensor) (a b s d : ℕ)
      → Is candle is_f32 (a ∷ b ∷ s ∷ d ∷ []) x
      → Is candle is_f32 (a ∷ 1 ∷ s ∷ d ∷ []) emb
      → Has candle is_f32 (candle.expand (dims x) emb) (a ∷ b ∷ s ∷ d ∷ [])
  expand-Has x emb a b s d x_is emb_is = rw (x_is.0) (
      layout.expand_lem emb _ (a ∷ b ∷ s ∷ d ∷ []) emb_is
        (inl refl, (inr refl, (inl refl, (inl refl, tt)))))

  -- The angles of the positions of `a` sequences, `half` at each.
  pub apply-Has :
      (rope : RoPe F64) (q k positions : Tensor) (a b c s half : ℕ)
      → rope.head_dim ≡ half + half
      → 0 < s
      → Is candle is_f32 (a ∷ b ∷ s ∷ (half + half) ∷ []) q
      → Is candle is_f32 (a ∷ c ∷ s ∷ (half + half) ∷ []) k
      → dims positions ≡ a ∷ s ∷ []
      → Gives (apply candle rope q k positions) (λ r.
        Is candle is_f32 (a ∷ b ∷ s ∷ (half + half) ∷ []) r.0
        × Is candle is_f32 (a ∷ c ∷ s ∷ (half + half) ∷ []) r.1)
  unfolding apply
  apply-Has rope q k positions a b c s half even positive q_is k_is p_is =
      let n : length (inv_freq candle rope) ≡ half = length-inv_freq rope ∙ (omega (arith, even)) in
      let to_half : (v : Tensor)
          → Is candle is_f32 (length (inv_freq candle rope) ∷ []) v
          → Is candle is_f32 (half ∷ []) v =
        λ v v_is. (v_is.0 ∙ ap (λ m. m ∷ []) n, v_is.1) in
      rw (ap (λ ds. ok_or (get_elem? ds 2) tensor_error) (q_is.0)) (
        layout.from_vec_lem (inv_freq candle rope) (length (inv_freq candle rope) ∷ [])
          (omega arith)
        >>> λ v v_is. layout.unsqueeze_first_lem v _ (to_half v v_is) >>> λ row row_is.
            layout.to_f32_lem positions _ p_is >>> λ ids ids_is.
            layout.reshape_rest_lem ids a s ids_is positive >>> λ column column_is.
            arithmetic.broadcast_matmul_lem column row a s 1 half column_is row_is
            >>> λ freqs freqs_is.
                layout.cat_last_lem freqs freqs a s half half freqs_is freqs_is >>> λ emb emb_is.
                layout.unsqueeze_second_lem emb a _ emb_is >>> λ emb4 emb4_is.
                arithmetic.cos_lem emb4 _ emb4_is >>> λ cos cos_is.
                arithmetic.sin_lem emb4 _ emb4_is >>> λ sin sin_is.
                expand-Has q cos a b s (half + half) q_is cos_is >>> λ cos_q cos_q_is.
                expand-Has q sin a b s (half + half) q_is sin_is >>> λ sin_q sin_q_is.
                expand-Has k cos a c s (half + half) k_is cos_is >>> λ cos_k cos_k_is.
                expand-Has k sin a c s (half + half) k_is sin_is >>> λ sin_k sin_k_is.
                embed-Has q cos_q sin_q a b s half q_is cos_q_is sin_q_is >>> λ q_embed q_embed_is.
                embed-Has k cos_k sin_k a c s half k_is cos_k_is sin_k_is >>> λ k_embed k_embed_is.
                ((q_embed, k_embed), refl, (q_embed_is, k_embed_is)))
