-- ===== src/P2p/Client.antt =====
-- src/p2p/src/swarm.rs, the client: `dedup_chain` and the loop of `run_client`. One call of `step`
-- handles one event; an `err` is the error that the client returns.
pub mod Chain
pub mod Requests
pub mod Retries
pub mod Stuck
use inference_mesh.Base.{
  ℕ, zero, suc, ◌+◌, ◌*◌, ◌/◌, ◌≤◌, Bool, true, false, not, ◌&&◌, if◌then◌else◌, ite, leb, Option,
  none, some, List, [], ◌∷◌, ◌++◌, map, length, ℕ_discrete, Result, Error, ok, err, panic, ◌>>=◌,
  or_panic, get_elem?,
}
use inference_mesh.Base.HashMap
use inference_mesh.Base.HashMap.{HashMap, contains_key}
use inference_mesh.Protocol.Schema.{Bytes}
use inference_mesh.Protocol.Dtype.{Dtype, f32}
use inference_mesh.Protocol.Request
use inference_mesh.Protocol.Request.{ForwardPassRequest, Payload}
use inference_mesh.Protocol.Response.{ForwardPassResponse}
use inference_mesh.P2p.Net.{
  Net, KadEvent, SwarmEvent, Command, Answers, routing_updated, found_providers,
  finished_with_no_additional_record, other_kad, kademlia, new_listen_addr, connection_established,
  inbound_request, response_received, outbound_failure, identify_received, other_event, add_address,
  get_providers, send_request,
}
use inference_mesh.P2p.Dht.{layer_key}
use inference_mesh.P2p.ProviderCache
use inference_mesh.P2p.ProviderCache.{ProviderCache, is_empty}
use inference_mesh.P2p.Worker.{add_bootstrap_addr}

module _ {P : Type 0} (same : Discrete P) where
  -- `acc.last() == Some(&peer)`.
  abbrev pub ends_with : List P → P → Bool
  ends_with [] peer = false
  ends_with (x ∷ []) peer = ite (same x peer) true false
  ends_with (x ∷ y ∷ xs) peer = ends_with (y ∷ xs) peer

  unfoldable pub dedup_from : List P → List P → List P
  dedup_from acc [] = acc
  dedup_from acc (peer ∷ chain) =
      dedup_from (if ends_with acc peer then acc else acc ++ (peer ∷ [])) chain

  unfoldable pub dedup_chain : List P → List P
  unfolding dedup_from
  dedup_chain chain = dedup_from [] chain

abbrev pub max_retries : ℕ
max_retries = 3

-- `Duration::from_secs(60)` in nanoseconds.
abbrev pub cache_ttl : ℕ
cache_ttl = 60 * 1_000_000_000

-- The payload as `f32`s, of shape `[1, payload.len() as u64 / 4]`.
abbrev pub client_payload : Bytes → Payload
client_payload payload = record {
  dtype = f32;
  shape = 1 ∷ length payload / 4 ∷ [];
  bytes = payload;
}

module _ (net : Net) where
  open net use {PeerId, QueryId}

  pub record ClientState : Type 0 where
    pub bootstrapped : Bool
    pub bootstrap_triggered : Bool
    pub queries_sent : Bool
    pub providers : HashMap ℕ PeerId
    pub pending_queries : HashMap QueryId ℕ
    pub chain_built : Bool
    pub provider_cache : ProviderCache PeerId
    pub failed_peers : List PeerId
    pub retry_count : ℕ
    pub current_chain : List PeerId

  -- The arguments of `run_client`.
  pub record Job : Type 0 where
    pub layers : List ℕ
    pub payload : Bytes

  -- What an event leads to: the loop goes on, or the client returns the response.
  pub data Next : Type 0 where
    continue : ClientState → List (Command net) → Next
    finished : ForwardPassResponse → Next

  unfoldable pub init : ClientState
  unfolding ProviderCache.new
  init = record {
    bootstrapped = false;
    bootstrap_triggered = false;
    queries_sent = false;
    providers = [];
    pending_queries = [];
    chain_built = false;
    provider_cache = ProviderCache.new cache_ttl;
    failed_peers = [];
    retry_count = 0;
    current_chain = [];
  }

  -- The first peer that was found for a layer is taken, and the query is over.
  unfoldable pub take_first : ℕ → ℕ → List PeerId → ClientState → ClientState
  take_first now layer [] st = st
  take_first now layer (p ∷ found) st = record st {
    providers = HashMap.insert ℕ_discrete layer p st.providers;
    provider_cache = ProviderCache.insert st.provider_cache now layer p;
  }

  abbrev pub end_query : QueryId → ClientState → ClientState
  end_query id st = record st {
    pending_queries = HashMap.remove net.same_query id st.pending_queries;
  }

  unfoldable pub on_query : Answers net → ClientState → KadEvent net → ClientState
  unfolding take_first
  on_query a st (routing_updated true) = record st { bootstrapped = true }
  on_query a st (routing_updated false) = st
  on_query a st (found_providers id found) =
      elim (HashMap.get net.same_query id st.pending_queries) [
        | none ↦ st
        | some layer ↦ end_query id (take_first a.now layer found st)
      ]
  on_query a st (finished_with_no_additional_record id) =
      elim (HashMap.get net.same_query id st.pending_queries) [
        | none ↦ st
        | some layer ↦ end_query id st
      ]
  on_query a st other_kad = st

  -- The queries of `for &layer in &layers`, of which `i` have been started.
  unfoldable pub start_queries : Answers net → ℕ → List ℕ → HashMap QueryId ℕ → HashMap QueryId ℕ
  start_queries a i [] pending = pending
  start_queries a i (layer ∷ layers) pending =
      start_queries a (i + 1) layers (HashMap.insert net.same_query (a.query_id i) layer pending)

  abbrev pub query_commands : List ℕ → List (Command net)
  query_commands layers = map (λ layer. get_providers (layer_key layer)) layers

  unfoldable pub send_queries : Job → Answers net → ClientState → ClientState × List (Command net)
  unfolding start_queries
  send_queries job a st =
      if st.bootstrapped && not st.queries_sent
      then (
        record st {
          queries_sent = true;
          pending_queries = start_queries a 0 job.layers st.pending_queries;
        },
        query_commands job.layers,
      )
      else (st, [])

  unfoldable pub all_found : HashMap ℕ PeerId → List ℕ → Bool
  all_found providers [] = true
  all_found providers (layer ∷ layers) =
      contains_key ℕ_discrete layer providers && all_found providers layers

  -- `layers.iter().filter_map(|l| providers.get(l).cloned())`.
  unfoldable pub chain_of : HashMap ℕ PeerId → List ℕ → List PeerId
  chain_of providers [] = []
  chain_of providers (layer ∷ layers) =
      let rest = chain_of providers layers in
      elim (HashMap.get ℕ_discrete layer providers) [ none ↦ rest | some p ↦ p ∷ rest ]

  unfoldable pub send_chain : Job → ClientState → List PeerId → Result Next
  send_chain job st [] =
      if leb max_retries st.retry_count
      then err Error.no_chain
      else ok (continue (record st { queries_sent = false }) [])
  send_chain job st (first_peer ∷ chain) = do
    request ← Request.build net.wire (first_peer ∷ chain) 0 1 (client_payload job.payload) none
    ok (
        continue (record st { current_chain = first_peer ∷ chain; chain_built = true })
          (send_request first_peer request ∷ []))

  abbrev pub is_ready : Job → ClientState → Bool
  is_ready job st =
      not st.chain_built
      && (st.bootstrapped
          && (is_empty st.pending_queries
              && (not (is_empty job.layers) && all_found st.providers job.layers)))

  unfoldable pub build_chain : Job → ClientState → Result Next
  unfolding send_chain
  build_chain job st =
      let chain = dedup_chain net.wire.same (chain_of st.providers job.layers) in
      let sent = send_chain job st chain in if is_ready job st then sent else ok (continue st [])

  abbrev pub after_commands : List (Command net) → Next → Next
  after_commands commands (continue st more) = continue st (commands ++ more)
  after_commands commands (finished response) = finished response

  unfoldable pub on_kademlia : Job → Answers net → ClientState → KadEvent net → Result Next
  unfolding on_query send_queries build_chain
  on_kademlia job a st e = do
    let (asked, commands) = send_queries job a (on_query a st e)
    next ← build_chain job asked
    ok (after_commands commands next)

  -- `for &layer in &layers { provider_cache.evict(layer, &failed); }`.
  unfoldable pub evict_all : List ℕ → PeerId → ProviderCache PeerId → ProviderCache PeerId
  evict_all [] failed cache = cache
  evict_all (layer ∷ layers) failed cache =
      evict_all layers failed (ProviderCache.evict net.wire.same cache layer failed)

  -- The chain is given up, and the providers are looked up again.
  unfoldable pub fail_over : Job → ClientState → PeerId → ClientState
  unfolding evict_all
  fail_over job st failed = record st {
    retry_count = st.retry_count + 1;
    provider_cache = evict_all job.layers failed st.provider_cache;
    providers = [];
    queries_sent = false;
    chain_built = false;
    current_chain = [];
  }

  unfoldable pub on_failure : Job → ClientState → PeerId → Result Next
  unfolding fail_over
  on_failure job st failed =
      if leb max_retries st.retry_count
      then err Error.outbound_failed
      else ok (continue (fail_over job st failed) [])

  unfoldable pub step : Job → Answers net → ClientState → SwarmEvent net → Result Next
  unfolding on_kademlia on_failure add_bootstrap_addr
  step job a st (kademlia e) = on_kademlia job a st e
  step job a st (connection_established peer_id addr) =
      let (triggered, commands) = add_bootstrap_addr net st.bootstrap_triggered peer_id addr in
      ok (continue (record st { bootstrap_triggered = triggered }) commands)
  step job a st (response_received id response) = ok (finished response)
  step job a st (outbound_failure id peer) = on_failure job st peer
  step job a st (identify_received peer_id addrs) =
      ok (continue st (map (add_address peer_id) addrs))
  step job a st (new_listen_addr addr) = ok (continue st [])
  step job a st (inbound_request peer request channel) = ok (continue st [])
  step job a st other_event = ok (continue st [])

  -- The loop, until the client returns or the events are used up.
  unfoldable pub run : Job → ClientState → List (Answers net × SwarmEvent net) → Result Next
  run job st [] = ok (continue st [])
  run job st ((a, e) ∷ events) = elim (step job a st e) [
    | ok (continue st' commands) ↦ elim (run job st' events) [
      | ok next ↦ ok (after_commands commands next)
      | err x ↦ err x
      | panic ↦ panic
    ]
    | ok (finished response) ↦ ok (finished response)
    | err x ↦ err x
    | panic ↦ panic
  ]
