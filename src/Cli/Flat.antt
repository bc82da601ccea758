-- ===== src/Cli/Flat.antt =====
-- What a worker with a model answers to the payload of `run_client`, which has two dimensions
-- (src/p2p/src/swarm.rs, src/compute/src/engine.rs and src/compute/src/block.rs together).
use inference_mesh.Base.{
  ℕ, suc, ◌+◌, ◌-◌, ◌*◌, ◌/◌, ◌≤◌, ◌≡◌, refl, ap, ◌∙◌, subst, Bool, true, Option, none, some, List,
  [], ◌∷◌, length, Result, ok, err, tensor_error, arith,
}
use inference_mesh.Protocol.Schema.{Bytes, IsFaithful}
use inference_mesh.Protocol.Dtype.{f32, element_size}
use inference_mesh.Protocol.Request.{ForwardPassRequest, Payload}
use inference_mesh.Protocol.Request.RoundTrip.{Carries}
use inference_mesh.Protocol.Response.{ForwardPassResponse}
use inference_mesh.Protocol.Response.RoundTrip as Answer
use inference_mesh.P2p.Net.{Net, Answers, inbound_request, send_response}
use inference_mesh.P2p.Dht.{range, layers_between}
use inference_mesh.P2p.Client.{client_payload}
use inference_mesh.P2p.Worker.{WorkerState, Settings, empty_payload, step}
use inference_mesh.P2p.Worker.Replies.{step_compute_failed}
use inference_mesh.Compute.Candle.{Candle, dims3_of}
use inference_mesh.Compute.Config.{ModelConfig}
use inference_mesh.Compute.Block
use inference_mesh.Compute.Block.{TransformerBlock}
use inference_mesh.Compute.Shapes.{HasLayout}
use inference_mesh.Compute.Engine
use inference_mesh.Compute.Engine.Loaded.{
  AreLoaded, through, pass_through, process_terminal_pass-load_blocks,
}
use inference_mesh.Cli.Start.{as_engine, config_or_test, start_worker}
use inference_mesh.Cli.Answers.{started}

module _ (candle : Candle) (is_f32 : candle.Tensor → Bool) where
  open candle use {Tensor, F64}

  some_block :
      (path : Bytes) (config : ModelConfig F64) (start count : ℕ)
      (bs : List (TransformerBlock candle))
      → AreLoaded candle path config (range start (suc count)) bs
      → (b : TransformerBlock candle) × (rest : List (TransformerBlock candle)) × (bs ≡ b ∷ rest)
  unfolding range
  some_block path config start count [] are = elim are [ ]
  some_block path config start count (b ∷ rest) are = (b, rest, refl)

  -- A block takes only tensors of three dimensions.
  flat_fails :
      (b : TransformerBlock candle) (rest : List (TransformerBlock candle)) (x : Tensor) (m n : ℕ)
      → candle.dims x ≡ m ∷ n ∷ []
      → through candle (b ∷ rest) x none ≡ err tensor_error
  unfolding Block.forward
  flat_fails b rest x m n flat = rw (ap (dims3_of candle) flat) refl

  pass_through_flat :
      (bs : List (TransformerBlock candle)) (b : TransformerBlock candle)
      (rest : List (TransformerBlock candle)) (payload : Bytes) (k : ℕ)
      → HasLayout candle is_f32
      → bs ≡ b ∷ rest
      → length payload ≡ k * 4
      → pass_through candle bs payload f32 (1 ∷ length payload / 4 ∷ []) ≡ err tensor_error
  unfolding element_size
  pass_through_flat bs b rest payload k layout some_first size =
      let (x, read, x_is) =
        layout.from_raw_lem payload (1 ∷ length payload / 4 ∷ []) (omega (arith, size)) in
      rw (read, some_first) (rw (flat_fails b rest x 1 (length payload / 4) (x_is.0)) refl)

  module _ (net : Net) (from_file : Bytes → Option (ModelConfig F64)) (path : Bytes) where
    -- With faithful libraries, and where candle's shapes are as documented, a worker that was started
    -- with a model on at least one layer answers the payload that `run_client` makes of numbers of
    -- four bytes, at the last hop, with an empty tensor: the payload has two dimensions, and a block
    -- takes three.
    pub step-client_payload :
        IsFaithful net.wire
        → HasLayout candle is_f32
        → (parse_addr : Bytes → Result net.Multiaddr) (peer_id : net.PeerId)
          (bootstrap layers : Bytes) (addrs : List net.Multiaddr) (s : Settings net)
        → start_worker candle net parse_addr peer_id from_file (some path) bootstrap layers
          ≡ ok (addrs, s)
        → s.start_layer ≤ s.end_layer
        → (a : Answers net) (st : WorkerState net) (peer : net.PeerId) (channel : net.Channel)
        → {peers : List net.PeerId} {hop rid : ℕ} {m : Option Payload}
        → (r : ForwardPassRequest) (payload : Bytes) (k : ℕ) → length payload ≡ k * 4
        → Carries net.wire r peers hop rid (client_payload payload) m
        → hop ≡ length peers - 1
        → net.wire.response_fits (Answer.message rid empty_payload) ≡ true
        → (response : ForwardPassResponse) × (step net s a st (inbound_request peer r channel)
            ≡ ok (st, send_response channel response ∷ []))
          × Answer.Carries net.wire response rid empty_payload
    unfolding layers_between
    step-client_payload f layout parse_addr peer_id bootstrap layers addrs s start some_layers a st
          peer channel r payload k size c last fits =
        let config = config_or_test candle (from_file path) in
        let (eng, has_engine, loaded) =
          started candle net from_file path parse_addr peer_id bootstrap layers addrs s start in
        let (bs, are, pass) =
          process_terminal_pass-load_blocks candle (Engine.new candle) eng path config s.start_layer
            s.end_layer loaded in
        let many : s.end_layer + 1 - s.start_layer ≡ suc (s.end_layer - s.start_layer) =
          omega (arith, some_layers) in
        let (b, rest, some_first) =
          some_block path config s.start_layer (s.end_layer - s.start_layer) bs
            (subst (λ n. AreLoaded candle path config (range s.start_layer n) bs) many are) in
        step_compute_failed net s a st peer channel r c f (as_engine candle eng) tensor_error
          has_engine
          (pass payload f32 (1 ∷ length payload / 4 ∷ [])
            ∙ pass_through_flat bs b rest payload k layout some_first size)
          last fits
