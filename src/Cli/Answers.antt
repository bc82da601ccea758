-- ===== src/Cli/Answers.antt =====
-- What a worker that was started with a model answers (src/cli/src/main.rs, src/p2p/src/swarm.rs
-- and src/compute/src/engine.rs together).
use inference_mesh.Base.{
  ok-injective, split, ℕ, ◌-◌, ◌≡◌, refl, ap, subst, ◌∙◌, true, Option, some, List, [], ◌∷◌, length,
  Result, ok, err, panic, >>=-eq-ok,
}
use inference_mesh.Protocol.Schema.{Bytes, IsFaithful}
use inference_mesh.Protocol.Request.{ForwardPassRequest, Payload}
use inference_mesh.Protocol.Request.RoundTrip.{Carries, IsSmall}
use inference_mesh.Protocol.Response.{ForwardPassResponse}
use inference_mesh.Protocol.Response.RoundTrip as Answer
use inference_mesh.P2p.Net.{Net, Answers, Engine, inbound_request, send_response}
use inference_mesh.P2p.Dht.{layers_between}
use inference_mesh.P2p.Worker.{WorkerState, Settings, output_bytes, step}
use inference_mesh.P2p.Worker.Replies.{step_compute}
use inference_mesh.Compute.Candle.{Candle}
use inference_mesh.Compute.Config.{ModelConfig}
use inference_mesh.Compute.Block.{TransformerBlock}
use inference_mesh.Compute.Engine
use inference_mesh.Compute.Engine.{ComputeEngine, load_blocks, process_terminal_pass}
use inference_mesh.Compute.Engine.Loaded.{
  AreLoaded, pass_through, process_terminal_pass-load_blocks,
}
use inference_mesh.Cli.{parse_layers}
use inference_mesh.Cli.Start.{
  as_engine, config_or_test, loaded_engine, worker_engine, parse_addrs, start_worker,
}

module _ (candle : Candle) where
  open candle use {F64}

  -- A model has one list of blocks for a list of layers.
  AreLoaded-unique :
      (path : Bytes) (config : ModelConfig F64) (ls : List ℕ)
      (bs cs : List (TransformerBlock candle))
      → AreLoaded candle path config ls bs
      → AreLoaded candle path config ls cs
      → bs ≡ cs
  AreLoaded-unique path config [] [] [] h k = refl
  AreLoaded-unique path config [] [] (c ∷ cs) h k = elim k [ ]
  AreLoaded-unique path config [] (b ∷ bs) cs h k = elim h [ ]
  AreLoaded-unique path config (l ∷ ls) [] cs h k = elim h [ ]
  AreLoaded-unique path config (l ∷ ls) (b ∷ bs) [] h k = elim k [ ]
  AreLoaded-unique path config (l ∷ ls) (b ∷ bs) (c ∷ cs) (hb, h) (kc, k) =
      cc (hb, kc, AreLoaded-unique path config ls bs cs h k)

  loaded_first :
      (both : ComputeEngine candle × Result {0} Unit) (engine : Option Engine)
      → loaded_engine candle both ≡ ok engine
      → (both ≡ (both.0, ok tt)) × (engine ≡ some (as_engine candle both.0))
  loaded_first (eng, ok done) engine e = (refl, cc e)
  loaded_first (eng, err why) engine e = cc e
  loaded_first (eng, panic) engine e = cc e

  module _ (net : Net) (from_file : Bytes → Option (ModelConfig F64)) (path : Bytes) where
    -- What stands behind a worker that starts with a model.
    pub started :
        (parse_addr : Bytes → Result net.Multiaddr) (peer_id : net.PeerId)
        (bootstrap layers : Bytes) (addrs : List net.Multiaddr) (s : Settings net)
        → start_worker candle net parse_addr peer_id from_file (some path) bootstrap layers
          ≡ ok (addrs, s)
        → (eng : ComputeEngine candle) × (s.engine ≡ some (as_engine candle eng))
          × (load_blocks candle
                (Engine.new candle)
                path
                (config_or_test candle (from_file path))
                s.start_layer
                s.end_layer
              ≡ (eng, ok tt))
    unfolding start_worker worker_engine
    started parse_addr peer_id bootstrap layers addrs s e =
        let (range, read, e1) = >>=-eq-ok (parse_layers layers) _ e in
        let (read_addrs, got, e1') =
          >>=-eq-ok (parse_addrs parse_addr (split b',' bootstrap)) _ e1 in
        let (engine, made, e2) =
          >>=-eq-ok (worker_engine candle from_file (some path) range.0 range.1) _ e1' in
        let both =
          load_blocks candle (Engine.new candle) path (config_or_test candle (from_file path))
            range.0 range.1 in
        let (done, is) = loaded_first both engine made in
        subst Started (ap (λ x. x.1) (ok-injective e2)) (both.0, is, done)
      where
        Started : Settings net → Type 0
        Started s =
            (eng : ComputeEngine candle) × (s.engine ≡ some (as_engine candle eng))
            × (load_blocks candle (Engine.new candle) path (config_or_test candle (from_file path))
                  s.start_layer s.end_layer
                ≡ (eng, ok tt))

    -- With faithful libraries, a worker that was started with a model on a range of layers answers a
    -- request at the last hop of its route, whose answer is within the limits, with the bytes that
    -- reading the request's tensor and running the blocks of those layers on it gives, under the id,
    -- the element type and the shape of the request.
    pub step-start_worker :
        IsFaithful net.wire
        → (parse_addr : Bytes → Result net.Multiaddr) (peer_id : net.PeerId)
          (bootstrap layers : Bytes) (addrs : List net.Multiaddr) (s : Settings net)
        → start_worker candle net parse_addr peer_id from_file (some path) bootstrap layers
          ≡ ok (addrs, s)
        → (bs : List (TransformerBlock candle)) (output_vec : List ℕ)
        → AreLoaded candle path
            (config_or_test candle (from_file path))
            (layers_between s.start_layer s.end_layer)
            bs
        → (a : Answers net) (st : WorkerState net) (peer : net.PeerId) (channel : net.Channel)
        → {peers : List net.PeerId} {hop rid : ℕ} {t : Payload} {m : Option Payload}
        → (r : ForwardPassRequest) → Carries net.wire r peers hop rid t m
        → pass_through candle bs t.bytes t.dtype t.shape ≡ ok output_vec
        → hop ≡ length peers - 1
        → IsSmall (record t { bytes = output_bytes output_vec })
        → net.wire.response_fits (Answer.message rid (record t { bytes = output_bytes output_vec }))
          ≡ true
        → (response : ForwardPassResponse) × (step net s a st (inbound_request peer r channel)
            ≡ ok (st, send_response channel response ∷ []))
          × Answer.Carries net.wire response rid (record t { bytes = output_bytes output_vec })
    step-start_worker f parse_addr peer_id bootstrap layers addrs s start bs out are a st peer
          channel {t = t} r c runs last small fits =
        let config = config_or_test candle (from_file path) in
        let (eng, has_engine, loaded) = started parse_addr peer_id bootstrap layers addrs s start in
        let (cs, these, pass) =
          process_terminal_pass-load_blocks candle (Engine.new candle) eng path config s.start_layer
            s.end_layer loaded in
        let same =
          AreLoaded-unique path config (layers_between s.start_layer s.end_layer) cs bs these are in
        step_compute net s a st peer channel r c f (as_engine candle eng) out has_engine
          (pass t.bytes t.dtype t.shape
            ∙ (ap (λ k. pass_through candle k t.bytes t.dtype t.shape) same ∙ runs))
          last small fits
