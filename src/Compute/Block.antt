-- ===== src/Compute/Block.antt =====
-- src/compute/src/block.rs: one transformer block, forwards. Products and sums of sizes wrap as
-- `usize`. The weights are values of candle's types.
pub mod Mask
pub mod Load
pub mod Attended
pub mod Shaped
pub mod Fitted
use inference_mesh.Base.{
  ℕ, zero, suc, ◌+◌, ◌*◌, ◌%◌, ltb, ◌==◌, if◌then◌else◌, u32_mod, u64_mod, Option, none, some, List,
  [], ◌∷◌, ◌++◌, map, length, get_elem?, Result, ok, err, or_panic, tensor_error, ◌>>=◌,
}
use inference_mesh.Compute.Candle.{Candle, dims3}
use inference_mesh.Compute.Config.{RoPe}
use inference_mesh.Compute.Rope
use inference_mesh.Compute.Rope.{dim}

abbrev pub mul_usize : ℕ → ℕ → ℕ
mul_usize a b = a * b % u64_mod

abbrev pub add_usize : ℕ → ℕ → ℕ
add_usize a b = (a + b) % u64_mod

module _ {F32 : Type 0} (neg_infinity zero_f : F32) where
  -- The loop over `j`, with the number of rounds that are left.
  unfoldable pub mask_row : ℕ → ℕ → ℕ → List F32
  mask_row i j zero = []
  mask_row i j (suc left) = (if ltb i j then neg_infinity else zero_f) ∷ mask_row i (j + 1) left

  -- The loop over `i`.
  unfoldable pub mask_rows : ℕ → ℕ → ℕ → List F32
  unfolding mask_row
  mask_rows total_len i zero = []
  mask_rows total_len i (suc left) = mask_row i 0 total_len ++ mask_rows total_len (i + 1) left

  -- The loop over the heads of all sequences of the batch.
  unfoldable pub mask_data : ℕ → ℕ → List F32
  unfolding mask_rows
  mask_data total_len zero = []
  mask_data total_len (suc heads) = mask_rows total_len 0 total_len ++ mask_data total_len heads

module _ (candle : Candle) where
  open candle use {Tensor, Linear, F32, F64}

  pub record TransformerBlock : Type 0 where
    pub input_layernorm : Tensor
    pub post_attention_layernorm : Tensor
    pub q_proj : Linear
    pub k_proj : Linear
    pub v_proj : Linear
    pub o_proj : Linear
    pub gate_proj : Linear
    pub up_proj : Linear
    pub down_proj : Linear
    pub n_heads : ℕ
    pub n_kv_heads : ℕ
    pub n_kv_groups : ℕ
    pub head_dim : ℕ
    pub hidden_size : ℕ
    pub eps : F32
    pub rope : RoPe F64

  unfoldable pub compute_attention_mask : ℕ → ℕ → ℕ → Result Tensor
  unfolding mask_data
  compute_attention_mask b_times_heads seq_len past_len = do
    let total_len = add_usize past_len seq_len
    full_mask ←
        candle.from_vec (mask_data candle.neg_infinity candle.zero total_len b_times_heads)
          (b_times_heads ∷ total_len ∷ total_len ∷ [])
    if ltb 0 past_len then candle.narrow 1 past_len seq_len full_mask else ok full_mask

  unfoldable pub repeat_kv : Tensor → ℕ → Result Tensor
  repeat_kv kv n_groups = if n_groups == 1 then ok kv else (do
    b_times_kv_heads ← or_panic (get_elem? (candle.dims kv) 0)
    seq_len ← or_panic (get_elem? (candle.dims kv) 1)
    head_dim ← or_panic (get_elem? (candle.dims kv) 2)
    kv4 ← candle.unsqueeze 1 kv
    wide ← candle.expand (b_times_kv_heads ∷ n_groups ∷ seq_len ∷ head_dim ∷ []) kv4
    candle.reshape (mul_usize b_times_kv_heads n_groups ∷ seq_len ∷ head_dim ∷ []) wide)

  -- `reshape`, `transpose(1, 2)` and `contiguous`.
  unfoldable pub to_heads : ℕ → ℕ → ℕ → ℕ → Tensor → Result Tensor
  to_heads b_sz seq_len heads head_dim x = do
    shaped ← candle.reshape (b_sz ∷ seq_len ∷ heads ∷ head_dim ∷ []) x
    turned ← candle.transpose 1 2 shaped
    candle.contiguous turned

  -- The keys and values with those of the past, and how long the past is.
  abbrev pub with_past : Option (Tensor × Tensor) → Tensor → Tensor → Result (Tensor × Tensor × ℕ)
  with_past none k v = ok (k, v, 0)
  with_past (some (past_k, past_v)) k v = do
    k_full ← candle.cat (past_k ∷ k ∷ []) 2
    v_full ← candle.cat (past_v ∷ v ∷ []) 2
    pl ← dim candle past_k 2
    ok (k_full, v_full, pl)

  abbrev pub add_masks : Option Tensor → Tensor → Tensor → Result Tensor
  add_masks none att causal_mask = candle.add att causal_mask
  add_masks (some user_mask) att causal_mask = do
    m ← candle.expand (candle.dims att) user_mask
    masked ← candle.add att causal_mask
    candle.add masked m

  module _ (block : TransformerBlock) where
    -- From the turned queries and keys to the output of the attention.
    unfoldable pub attend : ℕ → ℕ → Option Tensor → Tensor → Tensor → Tensor → ℕ → Result Tensor
    unfolding repeat_kv compute_attention_mask
    attend b_sz seq_len mask q k_full v_full past_len = do
      let total = add_usize past_len seq_len
      k_flat ← candle.reshape (mul_usize b_sz block.n_kv_heads ∷ total ∷ block.head_dim ∷ []) k_full
      v_flat ← candle.reshape (mul_usize b_sz block.n_kv_heads ∷ total ∷ block.head_dim ∷ []) v_full
      q_flat ← candle.reshape (mul_usize b_sz block.n_heads ∷ seq_len ∷ block.head_dim ∷ []) q
      k_repeated ← repeat_kv k_flat block.n_kv_groups
      v_repeated ← repeat_kv v_flat block.n_kv_groups
      k_t ← candle.transpose_last k_repeated
      k_c ← candle.contiguous k_t
      scores ← candle.matmul q_flat k_c
      att ← candle.div_scalar scores (candle.sqrt (candle.usize_as_f64 block.head_dim))
      causal_mask ← compute_attention_mask (mul_usize b_sz block.n_heads) seq_len past_len
      masked ← add_masks mask att causal_mask
      weights ← candle.softmax_last_dim masked
      mixed ← candle.matmul weights v_repeated
      split_heads ← candle.reshape (b_sz ∷ block.n_heads ∷ seq_len ∷ block.head_dim ∷ []) mixed
      turned ← candle.transpose 1 2 split_heads
      flat ← candle.contiguous turned
      joined ← candle.reshape (b_sz ∷ seq_len ∷ block.hidden_size ∷ []) flat
      candle.linear block.o_proj joined

    -- The second half: the feed-forward layer with its residual.
    unfoldable pub feed_forward : Tensor → Result Tensor
    feed_forward hidden_states = do
      normed ← candle.rms_norm hidden_states block.post_attention_layernorm block.eps
      gated ← candle.linear block.gate_proj normed
      gate ← candle.silu gated
      up ← candle.linear block.up_proj normed
      product ← candle.mul gate up
      mlp_output ← candle.linear block.down_proj product
      candle.add hidden_states mlp_output

    unfoldable pub forward_inner :
        Tensor
        → Option Tensor
        → Tensor
        → Option (Tensor × Tensor)
        → Result (Tensor × Option (Tensor × Tensor))
    unfolding to_heads Rope.apply attend feed_forward
    forward_inner hidden_states mask position_ids layer_past = do
      (b_sz, seq_len, hidden) ← dims3 candle hidden_states
      normed ← candle.rms_norm hidden_states block.input_layernorm block.eps
      q0 ← candle.linear block.q_proj normed
      k0 ← candle.linear block.k_proj normed
      v0 ← candle.linear block.v_proj normed
      q1 ← to_heads b_sz seq_len block.n_heads block.head_dim q0
      k1 ← to_heads b_sz seq_len block.n_kv_heads block.head_dim k0
      v1 ← to_heads b_sz seq_len block.n_kv_heads block.head_dim v0
      (q, k) ← Rope.apply candle block.rope q1 k1 position_ids
      (k_full, v_full, past_len) ← with_past layer_past k v1
      attn_output ← attend b_sz seq_len mask q k_full v_full past_len
      hidden_mid ← candle.add hidden_states attn_output
      hidden_out ← feed_forward hidden_mid
      let kv_shape = b_sz ∷ block.n_kv_heads ∷ add_usize past_len seq_len ∷ block.head_dim ∷ []
      new_k ← candle.reshape kv_shape k_full
      new_v ← candle.reshape kv_shape v_full
      ok (hidden_out, some (new_k, new_v))

    unfoldable pub forward : Tensor → Option Tensor → Result Tensor
    unfolding forward_inner
    forward hidden_states mask = do
      (b_sz, seq_len, hidden) ← dims3 candle hidden_states
      range ← candle.arange 0 (seq_len % u32_mod)
      row ← candle.unsqueeze 0 range
      position_ids ← candle.repeat (b_sz ∷ 1 ∷ []) row
      (output, kv) ← forward_inner hidden_states mask position_ids none
      ok output

    unfoldable pub forward_with_kv_cache :
        Tensor
        → Option Tensor
        → Tensor
        → Option (Tensor × Tensor)
        → Result (Tensor × Option (Tensor × Tensor))
    unfolding forward_inner
    forward_with_kv_cache hidden_states mask position_ids layer_past =
        forward_inner hidden_states mask position_ids layer_past

    unfoldable pub backward : Tensor → Option Tensor → Tensor → Result Tensor
    backward hidden_states mask grad_output = err tensor_error
