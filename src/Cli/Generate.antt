-- ===== src/Cli/Generate.antt =====
-- src/cli/src/main.rs, the loop of the `generate` command: each round sends the embedding of all
-- tokens through the network and takes the next token from the answer. The tokenizer is a parameter,
-- and the answers of the two channels are a list.
pub mod Rounds
pub mod Floats
use inference_mesh.Base.{
  ℕ, zero, suc, ◌+◌, ◌-◌, ◌*◌, ◌%◌, ◌^◌, u64_mod, List, [], ◌∷◌, ◌++◌, map, length, Result, Error,
  ok, err, panic, ◌>>=◌,
}
use inference_mesh.Protocol.Schema.{Bytes}
use inference_mesh.Protocol.Response
use inference_mesh.Protocol.Response.{ForwardPassResponse}
use inference_mesh.P2p.Worker.{output_bytes}
use inference_mesh.Compute.Candle.{Candle}

-- What one round meets: `send` fails, or `recv` gives `None`, an error or a response.
pub data Reply : Type 0 where
  send_failed closed : Reply
  failed : Error → Reply
  answered : ForwardPassResponse → Reply

-- The tokens, the payloads that were sent with their shapes, and the texts that were printed.
pub record Progress : Type 0 where
  pub tokens : List ℕ
  pub sent : List (Bytes × List ℕ)
  pub printed : List Bytes

-- Whether the loop goes on.
pub data Next : Type 0 where
  goes : Next
  stops : Result {0} Unit → Next

-- `chunks_exact(4)` with `f32::from_le_bytes`; what is left of fewer than four bytes is dropped.
unfoldable pub read_floats : Bytes → List ℕ
read_floats (a ∷ b ∷ c ∷ d ∷ bytes) = (a + b * 2 ^ 8 + c * 2 ^ 16 + d * 2 ^ 24) ∷ read_floats bytes
read_floats (a ∷ b ∷ c ∷ []) = []
read_floats (a ∷ b ∷ []) = []
read_floats (a ∷ []) = []
read_floats [] = []

-- When no reply is left the channel is closed.
abbrev pub first_reply : List Reply → Reply
first_reply [] = closed
first_reply (reply ∷ replies) = reply

abbrev pub other_replies : List Reply → List Reply
other_replies [] = []
other_replies (reply ∷ replies) = replies

module _ (candle : Candle) where
  open candle use {Tensor, F32}

  -- The weights that the client holds itself, and the tokenizer's `decode`.
  pub record Weights : Type 0 where
    pub hidden_size : ℕ
    pub embed_tokens : Tensor
    pub norm : Tensor
    pub norm_eps : F32
    pub lm_head_weight : Tensor
    pub decode : ℕ → Result Bytes

  module _ (weights : Weights) where
    abbrev pub shape_of : ℕ → List ℕ
    shape_of seq_len = 1 ∷ seq_len ∷ weights.hidden_size ∷ []

    unfoldable pub payload_of : List ℕ → Result (Bytes × List ℕ)
    payload_of tokens = do
      token_row ← candle.from_tokens tokens
      token_tensor ← candle.unsqueeze 0 token_row
      embeddings ← candle.embedding weights.embed_tokens token_tensor
      emb_flat ← candle.flatten_all embeddings
      floats ← candle.to_vec1 emb_flat
      ok (output_bytes floats, shape_of (length tokens))

    unfoldable pub next_token : ForwardPassResponse → ℕ → Result ℕ
    unfolding read_floats
    next_token response seq_len = do
      out_data ← Response.tensor_data response
      out_tensor ← candle.from_vec (map candle.from_bits (read_floats out_data)) (shape_of seq_len)
      last_row ← candle.narrow 1 ((seq_len + u64_mod - 1) % u64_mod) 1 out_tensor
      last_hidden ← candle.squeeze 1 last_row
      normed ← candle.rms_norm last_hidden weights.norm weights.norm_eps
      lm_head_t ← candle.transpose_last weights.lm_head_weight
      logits ← candle.broadcast_matmul normed lm_head_t
      row ← candle.squeeze 0 logits
      best ← candle.argmax 0 row
      candle.to_scalar best

    -- The token is added before its text is made.
    abbrev pub print_token : Progress → ℕ → Result Bytes → Progress × Next
    print_token p token (ok text) =
        (record p { tokens = p.tokens ++ (token ∷ []); printed = p.printed ++ (text ∷ []) }, goes)
    print_token p token (err why) =
        (record p { tokens = p.tokens ++ (token ∷ []) }, stops (err why))
    print_token p token panic = (record p { tokens = p.tokens ++ (token ∷ []) }, stops panic)

    abbrev pub take_token : Progress → Result ℕ → Progress × Next
    take_token p (ok token) = print_token p token (weights.decode token)
    take_token p (err why) = (p, stops (err why))
    take_token p panic = (p, stops panic)

    abbrev pub sends : Progress → Bytes × List ℕ → Progress
    sends p payload = record p { sent = p.sent ++ (payload ∷ []) }

    abbrev pub on_reply : Progress → Bytes × List ℕ → Reply → Progress × Next
    on_reply p payload send_failed = (p, stops (err Error.channel_closed))
    on_reply p payload closed = (sends p payload, stops (ok tt))
    on_reply p payload (failed why) = (sends p payload, stops (ok tt))
    on_reply p payload (answered response) =
        take_token (sends p payload) (next_token response (length p.tokens))

    abbrev pub send_payload : Progress → Reply → Result (Bytes × List ℕ) → Progress × Next
    send_payload p reply (ok payload) = on_reply p payload reply
    send_payload p reply (err why) = (p, stops (err why))
    send_payload p reply panic = (p, stops panic)

    unfoldable pub round : Progress → Reply → Progress × Next
    unfolding payload_of next_token
    round p reply = send_payload p reply (payload_of p.tokens)

    -- The loop, with the rounds that are left.
    unfoldable pub generate : ℕ → List Reply → Progress → Progress × Result {0} Unit
    unfolding round
    generate zero replies p = (p, ok tt)
    generate (suc max_tokens) replies p =
        let after = round p (first_reply replies) in
        let rest = generate max_tokens (other_replies replies) after.0 in
        elim after.1 [ goes ↦ rest | stops result ↦ (after.0, result) ]
