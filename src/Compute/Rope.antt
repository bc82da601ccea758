-- ===== src/Compute/Rope.antt =====
-- src/compute/src/types.rs: `RoPE::apply`, which turns queries and keys by their positions.
pub mod Shaped
use inference_mesh.Base.{
  ℕ, zero, suc, ◌+◌, ◌-◌, ◌/◌, List, [], ◌∷◌, map, length, get_elem?, Result, ok, ok_or,
  tensor_error, ◌>>=◌,
}
use inference_mesh.Compute.Candle.{Candle}
use inference_mesh.Compute.Config.{RoPe}

-- `(0..n).step_by(2)`: the even numbers from `i`, with the number of steps that are left.
unfoldable pub evens : ℕ → ℕ → List ℕ
evens i zero = []
evens i (suc left) = i ∷ evens (i + 2) left

module _ (candle : Candle) where
  open candle use {Tensor, F32, F64}

  -- `x.dim(i)`.
  abbrev pub dim : Tensor → ℕ → Result ℕ
  dim x i = ok_or (get_elem? (candle.dims x) i) tensor_error

  unfoldable pub inv_freq : RoPe F64 → List F32
  unfolding evens
  inv_freq rope =
      map
        (λ i. candle.div_f32 candle.one (
          candle.f64_as_f32 (
            candle.powf rope.theta
              (candle.div_f64 (candle.usize_as_f64 i) (candle.usize_as_f64 rope.head_dim)))))
        (evens 0 ((rope.head_dim + 1) / 2))

  -- The last dimension is found by `len - 1`. A tensor without dimensions does not come here.
  unfoldable pub rotate_half : Tensor → Result Tensor
  rotate_half x = do
    let at = length (candle.dims x) - 1
    last_dim ← dim x at
    x1 ← candle.narrow at 0 (last_dim / 2) x
    x2 ← candle.narrow at (last_dim / 2) (last_dim - last_dim / 2) x
    neg_x2 ← candle.neg x2
    candle.cat (neg_x2 ∷ x1 ∷ []) at

  -- `((x * &cos)? + (rotate_half(x)? * &sin)?)?`.
  unfoldable pub embed : Tensor → Tensor → Tensor → Result Tensor
  unfolding rotate_half
  embed x cos sin = do
    straight ← candle.mul x cos
    rotated ← rotate_half x
    turned ← candle.mul rotated sin
    candle.add straight turned

  unfoldable pub apply : RoPe F64 → Tensor → Tensor → Tensor → Result (Tensor × Tensor)
  unfolding inv_freq embed
  apply rope q k position_ids = do
    seq_len ← dim q 2
    let freqs_data = inv_freq rope
    inv_freq_v ← candle.from_vec freqs_data (length freqs_data ∷ [])
    inv_freq_t ← candle.unsqueeze 0 inv_freq_v
    pos_ids ← candle.to_f32 position_ids
    pos_flat ← candle.reshape_rest (seq_len ∷ 1 ∷ []) pos_ids
    freqs ← candle.broadcast_matmul pos_flat inv_freq_t
    emb ← candle.cat (freqs ∷ freqs ∷ []) 2
    emb4 ← candle.unsqueeze 1 emb
    cos ← candle.cos emb4
    sin ← candle.sin emb4
    cos_q ← candle.expand (candle.dims q) cos
    sin_q ← candle.expand (candle.dims q) sin
    cos_k ← candle.expand (candle.dims k) cos
    sin_k ← candle.expand (candle.dims k) sin
    q_embed ← embed q cos_q sin_q
    k_embed ← embed k cos_k sin_k
    ok (q_embed, k_embed)
