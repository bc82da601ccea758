-- ===== src/Tests/Clients.antt =====
-- A client for layers 0 and 1.
use inference_mesh.Base.{
  ℕ, ◌+◌, ◌≤◌, ◌≡◌, refl, inl, true, false, none, ℕ_discrete, List, [], ◌∷◌, map, ok, arith,
}
use inference_mesh.Base.HashMap
use inference_mesh.Protocol.Request.{ForwardPassRequest}
use inference_mesh.Protocol.Request.RoundTrip.{Carries, IsSendable}
use inference_mesh.P2p.Net.{
  Command, kademlia, outbound_failure, other_event, routing_updated, found_providers, send_request,
}
use inference_mesh.P2p.ProviderCache
use inference_mesh.P2p.Client
use inference_mesh.P2p.Client.{
  ClientState, Job, Next, continue, init, dedup_chain, dedup_from, cache_ttl, chain_of, all_found,
  client_payload, is_ready, build_chain, evict_all, on_failure, fail_over, run,
}
use inference_mesh.P2p.Client.Chain.{unroll, IsSteady, dedup_chain_lem}
use inference_mesh.P2p.Client.Requests.{IsProvided, build_chain_sends}
use inference_mesh.P2p.Client.Retries.{Running, start, after, requests, Running-bounds}
use inference_mesh.P2p.Client.Stuck.{IsStuck, run-IsStuck, last_query_sticks}
use inference_mesh.Tests.Toy.{wire, wire-IsFaithful, net, answers}

dedup_chain_lem_example :
    (runs : List (ℕ × ℕ)) × (unroll runs ≡ 7 ∷ 7 ∷ 8 ∷ 7 ∷ [])
    × (dedup_chain wire.same (7 ∷ 7 ∷ 8 ∷ 7 ∷ []) ≡ map (λ r. r.0) runs)
    × IsSteady (map (λ r. r.0) runs)
dedup_chain_lem_example = dedup_chain_lem wire.same (7 ∷ 7 ∷ 8 ∷ 7 ∷ [])

abbrev pub job : Job net
job = record { layers = 0 ∷ 1 ∷ []; payload = 1 ∷ 2 ∷ 3 ∷ 4 ∷ [] }

-- The client has failed once before any peer was known.
abbrev pub failed_once : ClientState net
failed_once = record {
  bootstrapped = false;
  bootstrap_triggered = false;
  queries_sent = false;
  providers = [];
  pending_queries = [];
  chain_built = false;
  provider_cache = ProviderCache.new cache_ttl;
  failed_peers = [];
  retry_count = 1;
  current_chain = [];
}

first_failure :
    Client.step net job answers (init net) (outbound_failure 5 7) ≡ ok (continue failed_once [])
unfolding Client.step init on_failure fail_over evict_all ProviderCache.evict ProviderCache.new
    HashMap.get
first_failure = refl

Running-once : Running net job failed_once 0 1
unfolding requests
Running-once = after answers (outbound_failure 5 7) [] start first_failure

Running-bounds_example : (1 ≤ 3) × (failed_once.retry_count ≡ 1) × (0 ≤ 1 + 1)
Running-bounds_example = Running-bounds net Running-once

abbrev pub ready : ClientState net
ready = record failed_once {
  bootstrapped = true;
  queries_sent = true;
  providers = (0, 7) ∷ (1, 8) ∷ [];
}

pub ready_chain : dedup_chain wire.same (chain_of net ready.providers job.layers) ≡ 7 ∷ 8 ∷ []
unfolding dedup_chain chain_of HashMap.get ℕ_discrete
ready_chain = refl

pub ready-is_ready : is_ready net job ready ≡ true
unfolding all_found HashMap.get ℕ_discrete
ready-is_ready = refl

ready-IsSendable :
    IsSendable wire
      (dedup_chain wire.same (chain_of net ready.providers job.layers))
      0
      1
      (client_payload job.payload)
      none
ready-IsSendable =
    rw ready_chain
      record { small_route = omega arith; small_tensor = omega arith; small_mask = tt; fits = refl }

build_chain_sends_example :
    (first : ℕ) × (rest : List ℕ) × (request : ForwardPassRequest) × (dedup_chain wire.same
        (chain_of net ready.providers job.layers)
      ≡ first ∷ rest)
    × IsProvided net ready.providers job.layers (chain_of net ready.providers job.layers)
    × (build_chain net job ready
        ≡ ok (
            continue
              (record ready { current_chain = first ∷ rest; chain_built = true })
              (send_request first request ∷ [])))
    × Carries wire request (first ∷ rest) 0 1 (client_payload job.payload) none
build_chain_sends_example =
    build_chain_sends net job ready wire-IsFaithful ready-is_ready ready-IsSendable

-- Layer 0 is provided, and the query for layer 1 is over.
abbrev stuck : ClientState net
stuck = record failed_once { bootstrapped = true; queries_sent = true; providers = (0, 7) ∷ [] }

stuck_missing : all_found net stuck.providers job.layers ≡ false
unfolding all_found HashMap.get ℕ_discrete
stuck_missing = refl

stuck-IsStuck : IsStuck net job stuck
stuck-IsStuck = record {
  joined = refl;
  asked = refl;
  over = refl;
  idle = refl;
  missing = stuck_missing;
}

run-IsStuck_example :
    (last : ClientState net) × (commands : List (Command net)) × (run net job stuck
        ((answers, kademlia (routing_updated true)) ∷ (answers, other_event) ∷ [])
      ≡ ok (continue last commands))
    × IsStuck net job last
    × (requests net commands ≡ 0)
run-IsStuck_example =
    run-IsStuck net job stuck
      ((answers, kademlia (routing_updated true)) ∷ (answers, other_event) ∷ []) (tt, (tt, tt))
      stuck-IsStuck

-- The query 1 for layer 1 is the last.
abbrev waiting : ClientState net
waiting = record stuck { pending_queries = (1, 1) ∷ [] }

last_query_sticks_example :
    (st : ClientState net) × (commands : List (Command net)) × (Client.step net job answers waiting
        (kademlia (found_providers 1 []))
      ≡ ok (continue st commands))
    × IsStuck net job st
    × (requests net commands ≡ 0)
last_query_sticks_example =
    last_query_sticks net job answers waiting 1 1 (found_providers 1 []) (inl refl) refl refl refl
      refl stuck_missing
