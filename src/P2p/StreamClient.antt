-- ===== src/P2p/StreamClient.antt =====
-- src/p2p/src/swarm.rs, `run_stream_client`: payloads come in on one channel, and responses go out on
-- another. One call of `step` handles what `select!` takes up: a payload, or an event.
pub mod Payloads
pub mod Requests
use inference_mesh.Base.{
  ℕ, Bool, true, false, if◌then◌else◌, leb, Option, none, some, List, [], ◌∷◌, ◌++◌, map, get_elem?,
  Result, Error, ok, err, panic, ◌>>=◌, or_panic,
}
use inference_mesh.Protocol.Schema.{Bytes}
use inference_mesh.Protocol.Dtype.{f32}
use inference_mesh.Protocol.Request
use inference_mesh.Protocol.Response.{ForwardPassResponse}
use inference_mesh.P2p.Net.{
  Net, KadEvent, SwarmEvent, Command, Answers, kademlia, new_listen_addr, connection_established,
  inbound_request, response_received, outbound_failure, identify_received, other_event, add_address,
  send_request,
}
use inference_mesh.P2p.Worker.{add_bootstrap_addr}
use inference_mesh.P2p.Client
use inference_mesh.P2p.Client.{
  ClientState, Job, max_retries, dedup_chain, chain_of, is_ready, on_query, send_queries, fail_over,
}

-- A message of the channel of requests: the data and the shape.
pub record StreamPayload : Type 0 where
  pub data_bytes : Bytes
  pub shape : List ℕ

module _ (net : Net) where
  open net use {PeerId}

  -- `run_client`'s variables and the two payloads.
  pub record StreamState : Type 0 where
    pub client : ClientState net
    pub pending_payload : Option StreamPayload
    pub inflight_payload : Option StreamPayload

  abbrev pub Reply : Type 0
  Reply = Result ForwardPassResponse

  -- The loop goes on, or the function returns, with the commands and with the replies that it sent.
  pub data StreamNext : Type 0 where
    continue : StreamState → List (Command net) → List Reply → StreamNext
    stopped : List Reply → Result (Unit {0}) → StreamNext

  pub data Input : Type 0 where
    payload : Option StreamPayload → Input
    event : SwarmEvent net → Input

  unfoldable pub init : StreamState
  unfolding Client.init
  init = record { client = Client.init net; pending_payload = none; inflight_payload = none }

  unfoldable pub send_payload : List PeerId → StreamPayload → Result (Command net)
  send_payload current_chain p = do
    request ←
        Request.build net.wire current_chain 0 1
          (record { dtype = f32; shape = p.shape; bytes = p.data_bytes }) none
    first_peer ← or_panic (get_elem? current_chain 0)
    ok (send_request first_peer request)

  -- The payload is sent along the chain; an error of `build` ends the function.
  unfoldable pub launch : StreamState → StreamPayload → StreamNext
  unfolding send_payload
  launch s p = elim (send_payload s.client.current_chain p) [
    | ok command ↦ continue (record s { inflight_payload = some p }) (command ∷ []) []
    | err e ↦ stopped [] (err e)
    | panic ↦ stopped [] panic
  ]

  unfoldable pub on_payload : StreamState → Option StreamPayload → StreamNext
  unfolding launch
  on_payload s none = stopped [] (ok tt)
  on_payload s (some p) =
      if s.client.chain_built
      then launch s p
      else continue (record s { pending_payload = some p }) [] []

  unfoldable pub send_pending : StreamState → StreamNext
  unfolding launch
  send_pending s = elim s.pending_payload [
    | none ↦ continue s [] []
    | some p ↦ launch (record s { pending_payload = none }) p
  ]

  unfoldable pub use_chain : StreamState → List PeerId → StreamNext
  unfolding send_pending
  use_chain s [] =
      if leb max_retries s.client.retry_count
      then stopped (err Error.no_chain ∷ []) (err Error.no_chain)
      else continue (record s { client = record s.client { queries_sent = false } }) [] []
  use_chain s (first_peer ∷ chain) = send_pending (record s {
    client = record s.client { current_chain = first_peer ∷ chain; chain_built = true };
  })

  unfoldable pub build_chain : Job net → StreamState → StreamNext
  unfolding use_chain
  build_chain job s =
      let chain = dedup_chain net.wire.same (chain_of net s.client.providers job.layers) in
      if is_ready net job s.client then use_chain s chain else continue s [] []

  abbrev pub after_commands : List (Command net) → StreamNext → StreamNext
  after_commands commands (continue s more replies) = continue s (commands ++ more) replies
  after_commands commands (stopped replies result) = stopped replies result

  unfoldable pub on_kademlia : Job net → Answers net → StreamState → KadEvent net → StreamNext
  unfolding build_chain
  on_kademlia job a s e =
      let (asked, commands) = send_queries net job a (on_query net a s.client e) in
      after_commands commands (build_chain job (record s { client = asked }))

  -- `receiver` tells whether anyone still listens to the responses.
  unfoldable pub on_response : Bool → StreamState → ForwardPassResponse → StreamNext
  on_response receiver s response =
      if receiver
      then continue (record s { inflight_payload = none }) [] (ok response ∷ [])
      else stopped [] (ok tt)

  abbrev pub requeue : Option StreamPayload → Option StreamPayload → Option StreamPayload
  requeue none pending = pending
  requeue (some p) pending = some p

  unfoldable pub on_failure : Job net → StreamState → PeerId → StreamNext
  on_failure job s failed =
      if leb max_retries s.client.retry_count
      then stopped (err Error.outbound_failed ∷ []) (err Error.outbound_failed)
      else continue
          (record {
            client = fail_over net job s.client failed;
            pending_payload = requeue s.inflight_payload s.pending_payload;
            inflight_payload = none;
          })
          [] []

  unfoldable pub step : Job net → Answers net → Bool → StreamState → Input → StreamNext
  unfolding on_payload on_kademlia on_response on_failure add_bootstrap_addr
  step job a receiver s (payload p) = on_payload s p
  step job a receiver s (event (kademlia e)) = on_kademlia job a s e
  step job a receiver s (event (connection_established peer_id addr)) =
      let (triggered, commands) =
        add_bootstrap_addr net s.client.bootstrap_triggered peer_id addr in
      continue (record s { client = record s.client { bootstrap_triggered = triggered } }) commands
        []
  step job a receiver s (event (response_received id response)) = on_response receiver s response
  step job a receiver s (event (outbound_failure id peer)) = on_failure job s peer
  step job a receiver s (event (identify_received peer_id addrs)) =
      continue s (map (add_address peer_id) addrs) []
  step job a receiver s (event (new_listen_addr addr)) = continue s [] []
  step job a receiver s (event (inbound_request peer request channel)) = continue s [] []
  step job a receiver s (event other_event) = continue s [] []

  abbrev pub after : List (Command net) → List Reply → StreamNext → StreamNext
  after commands replies (continue s more others) =
      continue s (commands ++ more) (replies ++ others)
  after commands replies (stopped others result) = stopped (replies ++ others) result

  -- The loop, until the function returns or the inputs are used up.
  unfoldable pub run : Job net → StreamState → List (Answers net × Bool × Input) → StreamNext
  unfolding step
  run job s [] = continue s [] []
  run job s ((a, receiver, input) ∷ inputs) = elim (step job a receiver s input) [
    | continue s' commands replies ↦ let rest = run job s' inputs in after commands replies rest
    | stopped replies result ↦ stopped replies result
  ]
