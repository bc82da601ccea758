-- ===== src/Tests/Streams.antt =====
-- A streaming client whose request is under way.
use inference_mesh.Base.{ℕ, ◌≡◌, refl, true, false, none, some, ℕ_discrete, List, [], ◌∷◌, arith}
use inference_mesh.Base.HashMap
use inference_mesh.Protocol.Request.{ForwardPassRequest}
use inference_mesh.Protocol.Request.RoundTrip.{Carries, IsSendable}
use inference_mesh.P2p.Net.{outbound_failure, send_request}
use inference_mesh.P2p.ProviderCache
use inference_mesh.P2p.Client.{
  ClientState, Job, cache_ttl, dedup_chain, chain_of, all_found, is_ready,
}
use inference_mesh.P2p.StreamClient
use inference_mesh.P2p.StreamClient.{StreamPayload, StreamState, continue, event}
use inference_mesh.P2p.StreamClient.Payloads.{travels, Fate, step-Fate}
use inference_mesh.P2p.StreamClient.Requests.{stream_tensor, build_chain_launches}
use inference_mesh.Tests.Toy.{net, answers, wire, wire-IsFaithful}

abbrev job : Job net
job = record { layers = 0 ∷ 1 ∷ []; payload = [] }

abbrev connected : ClientState net
connected = record {
  bootstrapped = true;
  bootstrap_triggered = true;
  queries_sent = true;
  providers = (0, 7) ∷ (1, 8) ∷ [];
  pending_queries = [];
  chain_built = true;
  provider_cache = ProviderCache.new cache_ttl;
  failed_peers = [];
  retry_count = 2;
  current_chain = 7 ∷ 8 ∷ [];
}

abbrev prompt : StreamPayload
prompt = record { data_bytes = 1 ∷ 2 ∷ 3 ∷ 4 ∷ []; shape = 1 ∷ 1 ∷ [] }

abbrev sent : StreamState net
sent = record { client = connected; pending_payload = none; inflight_payload = some prompt }

step-Fate_example :
    Fate net prompt sent
      (outbound_failure 5 7)
      (StreamClient.step net job answers true sent (event (outbound_failure 5 7)))
step-Fate_example =
    step-Fate net job answers true prompt sent (outbound_failure 5 7) (travels refl refl refl)

-- Every provider is known again, and the payload waits.
abbrev ready : StreamState net
ready = record {
  client = record connected { chain_built = false; current_chain = [] };
  pending_payload = some prompt;
  inflight_payload = none;
}

ready_chain : dedup_chain wire.same (chain_of net ready.client.providers job.layers) ≡ 7 ∷ 8 ∷ []
unfolding dedup_chain chain_of HashMap.get ℕ_discrete
ready_chain = refl

ready-is_ready : is_ready net job ready.client ≡ true
unfolding all_found HashMap.get ℕ_discrete
ready-is_ready = refl

ready-IsSendable :
    IsSendable wire
      (dedup_chain wire.same (chain_of net ready.client.providers job.layers))
      0
      1
      (stream_tensor prompt)
      none
ready-IsSendable =
    rw ready_chain
      record { small_route = omega arith; small_tensor = omega arith; small_mask = tt; fits = refl }

build_chain_launches_example :
    (first : ℕ) × (rest : List ℕ) × (request : ForwardPassRequest) × (dedup_chain wire.same
        (chain_of net ready.client.providers job.layers)
      ≡ first ∷ rest)
    × (StreamClient.build_chain net job ready
        ≡ continue
            (record {
              client = record connected { current_chain = first ∷ rest; chain_built = true };
              pending_payload = none;
              inflight_payload = some prompt;
            })
            (send_request first request ∷ [])
            [])
    × Carries wire request (first ∷ rest) 0 1 (stream_tensor prompt) none
build_chain_launches_example =
    build_chain_launches net job ready prompt wire-IsFaithful ready-is_ready refl ready-IsSendable
