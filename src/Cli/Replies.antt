-- ===== src/Cli/Replies.antt =====
-- A worker that was started with a model has a reply to every tensor of the model's shape
-- (src/cli/src/main.rs, src/p2p/src/swarm.rs and src/compute/src/engine.rs together).
use inference_mesh.Base.{
  ℕ, ◌*◌, ◌<◌, ◌≡◌, refl, ◌∙◌, u32_mod, Bool, Option, some, List, [], ◌∷◌, length, length-append,
  Result, ok, arith,
}
use inference_mesh.Protocol.Schema.{Bytes}
use inference_mesh.Protocol.Dtype.{f32, element_size}
use inference_mesh.Protocol.Request.{Payload}
use inference_mesh.P2p.Net.{Net}
use inference_mesh.P2p.Worker.{Settings, to_le_bytes, output_bytes}
use inference_mesh.P2p.Network.{Replies, computes}
use inference_mesh.Compute.Candle.{Candle}
use inference_mesh.Compute.Config.{ModelConfig}
use inference_mesh.Compute.Shapes.{HasLayout, HasArithmetic, HasWeights}
use inference_mesh.Compute.Block.Fitted.{FitsTogether}
use inference_mesh.Compute.Engine
use inference_mesh.Compute.Engine.Answers.{process_terminal_pass-Gives}
use inference_mesh.Cli.Start.{as_engine, config_or_test, start_worker}
use inference_mesh.Cli.Answers.{started}

length-output_bytes : (fs : List ℕ) → length (output_bytes fs) ≡ length fs * 4
unfolding output_bytes
length-output_bytes [] = refl
length-output_bytes (f ∷ fs) =
    omega (arith, length-append (to_le_bytes f) (output_bytes fs), length-output_bytes fs)

module _ (candle : Candle) (is_f32 : candle.Tensor → Bool) (net : Net)
    (from_file : Bytes → Option (ModelConfig candle.F64)) (path : Bytes) where
  abbrev model_config : ModelConfig candle.F64
  model_config = config_or_test candle (from_file path)

  -- The numbers of one sequence of n hidden states.
  abbrev pub IsSequence : ℕ → Payload → Type 0
  IsSequence n t =
      (t.dtype ≡ f32)
      × (t.shape ≡ 1 ∷ n ∷ model_config.hidden_size ∷ [])
      × (length t.bytes ≡ n * model_config.hidden_size * 4)

  -- Where candle's shapes are as documented, a worker that was started with a model of sizes that fit
  -- together replies, as the last of a route, to every tensor of `f32` numbers for one sequence of n
  -- hidden states, with 0 < n < 2 ^ 32: it computes, and its answer is again the numbers of a sequence
  -- of n hidden states.
  pub start_worker-Replies :
      HasLayout candle is_f32
      → HasArithmetic candle is_f32
      → HasWeights candle is_f32
      → (half groups : ℕ) → FitsTogether model_config half groups
      → (parse_addr : Bytes → Result net.Multiaddr) (peer_id : net.PeerId)
        (bootstrap layers : Bytes) (addrs : List net.Multiaddr) (s : Settings net)
      → start_worker candle net parse_addr peer_id from_file (some path) bootstrap layers
        ≡ ok (addrs, s)
      → (t : Payload) (n : ℕ) → IsSequence n t
      → 0 < n
      → n < u32_mod
      → (out : Payload) × Replies net s t out × IsSequence n out
  unfolding element_size
  start_worker-Replies layout arithmetic weights half groups fits parse_addr peer_id bootstrap
        layers addrs s start t n (numbers, shape, size) positive short =
      let (eng, has_engine, loaded) =
        started candle net from_file path parse_addr peer_id bootstrap layers addrs s start in
      let (output_vec, runs, full) =
        process_terminal_pass-Gives candle is_f32 layout arithmetic weights model_config half groups
          fits (Engine.new candle) eng path s.start_layer s.end_layer loaded t.bytes n positive
          short size in
      let here : as_engine candle eng s.start_layer s.end_layer t.bytes t.dtype t.shape
          ≡ ok output_vec =
        rw (numbers, shape) runs in
      (
        record t { bytes = output_bytes output_vec },
        computes (as_engine candle eng) output_vec has_engine here refl,
        (numbers, shape, length-output_bytes output_vec ∙ omega (arith, full)),
      )
