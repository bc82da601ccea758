-- ===== src/P2p/StreamClient/Requests.antt =====
-- Which request the streaming client sends (src/p2p/src/swarm.rs, `run_stream_client`).
use inference_mesh.Base.{◌≡◌, refl, true, none, some, List, [], ◌∷◌, arith}
use inference_mesh.Protocol.Schema.{IsFaithful}
use inference_mesh.Protocol.Dtype.{f32}
use inference_mesh.Protocol.Request.{ForwardPassRequest, Payload}
use inference_mesh.Protocol.Request.RoundTrip.{Carries, IsSendable, build-Carries}
use inference_mesh.P2p.Net.{Net, send_request}
use inference_mesh.P2p.Client.{Job, dedup_chain, chain_of, is_ready}
use inference_mesh.P2p.Client.Requests.{chain_of-IsProvided, dedup_chain_some}
use inference_mesh.P2p.StreamClient.{
  StreamPayload, StreamState, continue, send_payload, launch, send_pending, use_chain, build_chain,
}

-- The payload as `f32`s of its own shape.
abbrev pub stream_tensor : StreamPayload → Payload
stream_tensor p = record { dtype = f32; shape = p.shape; bytes = p.data_bytes }

module _ (net : Net) where
  open net use {PeerId}

  -- Once a provider is known for every layer, and no query is left, the payload that waits is sent, as
  -- one request: along the chain of the providers with repetitions collapsed, to its first peer, with
  -- hop 0 and the payload's data and shape. From then on the payload is under way and none waits.
  pub build_chain_launches :
      (job : Job net) (s : StreamState net) (p : StreamPayload)
      → IsFaithful net.wire
      → is_ready net job s.client ≡ true
      → s.pending_payload ≡ some p
      → IsSendable net.wire
          (dedup_chain net.wire.same (chain_of net s.client.providers job.layers))
          0
          1
          (stream_tensor p)
          none
      → (first : PeerId) × (rest : List PeerId) × (request : ForwardPassRequest) × (dedup_chain
            net.wire.same
            (chain_of net s.client.providers job.layers)
          ≡ first ∷ rest)
        × (build_chain net job s
            ≡ continue
                (record {
                  client = record s.client { current_chain = first ∷ rest; chain_built = true };
                  pending_payload = none;
                  inflight_payload = some p;
                })
                (send_request first request ∷ [])
                [])
        × Carries net.wire request (first ∷ rest) 0 1 (stream_tensor p) none
  unfolding build_chain use_chain send_pending launch send_payload
  build_chain_launches job s p f ready waiting sendable =
      let provided = chain_of-IsProvided net s.client.providers job.layers (ground arith) in
      let (first, rest, e) =
        dedup_chain_some net s.client.providers job.layers
          (chain_of net s.client.providers job.layers) (ground arith) provided in
      let (request, built, carries) =
        build-Carries net.wire f (first ∷ rest) 0 1 (stream_tensor p) none (rw e at sendable) in
      (
        first,
        rest,
        request,
        e,
        rw (ready, e, use_chain) (rw (waiting, send_pending) (rw (built, launch) refl)),
        carries,
      )
