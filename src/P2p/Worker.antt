-- ===== src/P2p/Worker.antt =====
-- src/p2p/src/swarm.rs, the worker: the loop of `run_worker` with the function that answers at the
-- terminal hop. One call of `step` handles one event: it returns the new state and the commands to
-- the swarm, in order. An error ends the loop, and a panic the task.
pub mod Channels
pub mod Counts
pub mod Replies
pub mod Terminal
pub mod Kept
use inference_mesh.Base.{
  ℕ, ◌+◌, ◌-◌, ◌/◌, ◌%◌, ◌^◌, Bool, true, false, not, ◌&&◌, if◌then◌else◌, Option, none, some, List,
  [], ◌∷◌, ◌++◌, map, length, Result, Error, ok, err, panic, ◌>>=◌, unwrap_or,
}
use inference_mesh.Base.HashMap
use inference_mesh.Base.HashMap.{HashMap}
use inference_mesh.Protocol.Schema.{Bytes}
use inference_mesh.Protocol.Dtype.{Dtype, f32}
use inference_mesh.Protocol.Request
use inference_mesh.Protocol.Request.{ForwardPassRequest, Payload}
use inference_mesh.Protocol.Response
use inference_mesh.Protocol.Response.{ForwardPassResponse}
use inference_mesh.P2p.Net
use inference_mesh.P2p.Net.{
  Net, KadEvent, SwarmEvent, Command, Answers, Engine, routing_updated, found_providers,
  finished_with_no_additional_record, other_kad, kademlia, new_listen_addr, connection_established,
  inbound_request, response_received, outbound_failure, identify_received, other_event, dial,
  add_address, bootstrap, start_providing, put_record, get_providers, send_request, send_response,
}
use inference_mesh.P2p.Routing.{build_next_request}
use inference_mesh.P2p.Dht.{layer_key, layer_addr_key, layers_between}

-- `f.to_le_bytes()`.
abbrev pub to_le_bytes : ℕ → Bytes
to_le_bytes f = f % 256 ∷ f / 2 ^ 8 % 256 ∷ f / 2 ^ 16 % 256 ∷ f / 2 ^ 24 % 256 ∷ []

unfoldable pub output_bytes : List ℕ → Bytes
output_bytes [] = []
output_bytes (f ∷ fs) = to_le_bytes f ++ output_bytes fs

-- The tensor of a failed pass.
abbrev pub empty_payload : Payload
empty_payload = record { dtype = f32; shape = []; bytes = [] }

module _ (net : Net) where
  open net use {PeerId, Multiaddr, Channel, OutboundRequestId}

  pub record WorkerState : Type 0 where
    pub bootstrapped : Bool
    pub bootstrap_triggered : Bool
    pub layers_announced : Bool
    pub listen_addr : Option Multiaddr
    pub pending_forwards : HashMap OutboundRequestId Channel

  -- The arguments of `run_worker`, with the id of its own peer.
  pub record Settings : Type 0 where
    pub local_peer_id : PeerId
    pub start_layer : ℕ
    pub end_layer : ℕ
    pub engine : Option Engine

  abbrev Outcome : Type 0
  Outcome = Result (WorkerState × List (Command net))

  -- The state before the first event.
  unfoldable pub init : WorkerState
  init = record {
    bootstrapped = false;
    bootstrap_triggered = false;
    layers_announced = false;
    listen_addr = none;
    pending_forwards = [];
  }

  -- The commands before the first event.
  unfoldable pub start_up : List Multiaddr → List (PeerId × Multiaddr) → List (Command net)
  start_up bootstrap_addrs peer_addresses =
      map dial bootstrap_addrs ++ map (λ e. add_address e.0 e.1) peer_addresses

  unfoldable pub add_bootstrap_addr : Bool → PeerId → Multiaddr → Bool × List (Command net)
  add_bootstrap_addr true peer_id addr = (true, [])
  add_bootstrap_addr false peer_id addr = (true, add_address peer_id addr ∷ bootstrap ∷ [])

  unfoldable pub send_echo_response : Channel → ℕ → ForwardPassRequest → Result (List (Command net))
  send_echo_response channel rid request = do
    dtype ← Request.tensor_dtype request
    shape ← Request.tensor_shape request
    bytes ← Request.tensor_data request
    response ← Response.build net.wire rid (record { dtype = dtype; shape = shape; bytes = bytes })
    ok (send_response channel response ∷ [])

  -- `ForwardPassResponse::build(rid, Dtype::F32, &[], &[]).unwrap()`, and the answer with it.
  unfoldable pub send_empty : Channel → ℕ → Result (List (Command net))
  send_empty channel rid = elim (Response.build net.wire rid empty_payload) [
    | ok response ↦ ok (send_response channel response ∷ [])
    | err _ ↦ panic
    | panic ↦ panic
  ]

  -- The arm for `Ok(output_vec)`.
  unfoldable pub answer_output :
      Channel → ℕ → ForwardPassRequest → List ℕ → Result (List (Command net))
  unfolding output_bytes send_empty
  answer_output channel rid request output_vec = do
    let bytes = output_bytes output_vec
    output_shape ← unwrap_or (Request.tensor_shape request) (length bytes / 4 ∷ [])
    dtype ← unwrap_or (Request.tensor_dtype request) f32
    elim (Response.build net.wire rid
        (record { dtype = dtype; shape = output_shape; bytes = bytes })) [
          | ok response ↦ ok (send_response channel response ∷ [])
          | err _ ↦ send_empty channel rid
          | panic ↦ panic
        ]

  unfoldable pub handle_terminal_hop :
      Settings → Channel → ℕ → ForwardPassRequest → Result (List (Command net))
  unfolding send_echo_response send_empty answer_output
  handle_terminal_hop s channel rid request = elim s.engine [
    | none ↦ send_echo_response channel rid request
    | some process_terminal_pass ↦ do
      bytes ← Request.tensor_data request
      dtype ← Request.tensor_dtype request
      shape ← Request.tensor_shape request
      elim (process_terminal_pass s.start_layer s.end_layer bytes dtype shape) [
        | ok output_vec ↦ answer_output channel rid request output_vec
        | err _ ↦ send_empty channel rid
        | panic ↦ panic
      ]
  ]

  -- The loop of `dht::announce_layers_simple`.
  unfoldable pub provide_layers : Answers net → List ℕ → Result (List (Command net))
  provide_layers a [] = ok []
  provide_layers a (layer ∷ layers) = do
    let key = layer_key layer
    commands ← provide_layers a layers
    if a.provides key then ok (start_providing key ∷ commands) else err Error.providing_failed

  -- The address record that `dht::put_worker_address` stores. Its error is ignored.
  abbrev put_worker_address : Settings → Multiaddr → Command net
  put_worker_address s addr =
      put_record (layer_addr_key net.wire s.start_layer s.local_peer_id) (net.addr_bytes addr)

  abbrev address_commands : Settings → Option Multiaddr → List (Command net)
  address_commands s none = []
  address_commands s (some addr) = put_worker_address s addr ∷ []

  unfoldable pub announce_now : Settings → Answers net → WorkerState → Outcome
  unfolding provide_layers
  announce_now s a st = do
    commands ← provide_layers a (layers_between s.start_layer s.end_layer)
    ok (record st { layers_announced = true }, commands ++ address_commands s st.listen_addr)

  -- `if bootstrapped && !layers_announced { … }`.
  unfoldable pub announce : Settings → Answers net → WorkerState → Outcome
  announce s a st =
      if st.bootstrapped && not st.layers_announced then announce_now s a st else ok (st, [])

  abbrev pub is_new_peer : KadEvent net → Bool
  is_new_peer (routing_updated new) = new
  is_new_peer (found_providers id found) = false
  is_new_peer (finished_with_no_additional_record id) = false
  is_new_peer other_kad = false

  unfoldable pub on_kademlia : Settings → Answers net → WorkerState → KadEvent net → Outcome
  unfolding announce
  on_kademlia s a st e =
      announce s a
        (if not st.bootstrapped && is_new_peer e then record st { bootstrapped = true } else st)

  unfoldable pub on_listen_addr :
      Settings → WorkerState → Multiaddr → WorkerState × List (Command net)
  on_listen_addr s st address = elim st.listen_addr [
    | none ↦ (record st { listen_addr = some address }, add_address s.local_peer_id address ∷ [])
    | some _ ↦ (st, [])
  ]

  -- The branch that sends the request on to the next hop. A request that cannot be built is dropped.
  unfoldable pub forward_request :
      Answers net → WorkerState → ForwardPassRequest → Channel → Outcome
  forward_request a st request channel = elim (build_next_request net.wire request) [
    | ok (next_peer, next_request) ↦ ok (
      record st {
        pending_forwards =
            HashMap.insert net.same_outbound a.outbound_id channel st.pending_forwards;
      },
      send_request next_peer next_request ∷ [],
    )
    | err _ ↦ ok (st, [])
    | panic ↦ panic
  ]

  unfoldable pub answer_request :
      Settings → WorkerState → ℕ → ForwardPassRequest → Channel → Outcome
  unfolding handle_terminal_hop
  answer_request s st rid request channel = do
    commands ← handle_terminal_hop s channel rid request
    ok (st, commands)

  unfoldable pub on_request :
      Settings → Answers net → WorkerState → ForwardPassRequest → Channel → Outcome
  unfolding answer_request forward_request
  on_request s a st request channel = do
    rid ← unwrap_or (Request.request_id request) 0
    is_terminal ← unwrap_or (Request.is_terminal net.wire request) false
    if is_terminal
        then answer_request s st rid request channel
        else forward_request a st request channel

  -- `pending_forwards.remove(&request_id)`.
  abbrev forget : WorkerState → OutboundRequestId → WorkerState
  forget st id = record st {
    pending_forwards = HashMap.remove net.same_outbound id st.pending_forwards;
  }

  unfoldable pub on_response :
      WorkerState → OutboundRequestId → ForwardPassResponse → WorkerState × List (Command net)
  on_response st id response = elim (HashMap.get net.same_outbound id st.pending_forwards) [
    | none ↦ (st, [])
    | some channel ↦ (forget st id, send_response channel response ∷ [])
  ]

  -- `ForwardPassResponse::build(0, F32, &[], &[])`, and where that fails the same with shape `[0]`.
  unfoldable pub failure_response : Result ForwardPassResponse
  failure_response = elim (Response.build net.wire 0 empty_payload) [
    | ok response ↦ ok response
    | err _ ↦ elim (Response.build net.wire 0 (record empty_payload { shape = 0 ∷ [] })) [
      | ok response ↦ ok response
      | err _ ↦ panic
      | panic ↦ panic
    ]
    | panic ↦ panic
  ]

  unfoldable pub on_outbound_failure : WorkerState → OutboundRequestId → Outcome
  unfolding failure_response
  on_outbound_failure st id = elim (HashMap.get net.same_outbound id st.pending_forwards) [
    | none ↦ ok (st, [])
    | some channel ↦ do
      failure ← failure_response
      ok (forget st id, send_response channel failure ∷ [])
  ]

  unfoldable pub step : Settings → Answers net → WorkerState → SwarmEvent net → Outcome
  unfolding on_kademlia on_listen_addr add_bootstrap_addr on_request on_response on_outbound_failure
  step s a st (kademlia e) = on_kademlia s a st e
  step s a st (new_listen_addr address) = ok (on_listen_addr s st address)
  step s a st (connection_established peer_id addr) =
      let (triggered, commands) = add_bootstrap_addr st.bootstrap_triggered peer_id addr in
      ok (record st { bootstrap_triggered = triggered }, commands)
  step s a st (inbound_request peer request channel) = on_request s a st request channel
  step s a st (response_received id response) = ok (on_response st id response)
  step s a st (outbound_failure id peer) = on_outbound_failure st id
  step s a st (identify_received peer_id addrs) = ok (st, map (add_address peer_id) addrs)
  step s a st other_event = ok (st, [])

  -- The loop, over the events that the swarm delivers, each with what it answers meanwhile.
  unfoldable pub run : Settings → WorkerState → List (Answers net × SwarmEvent net) → Outcome
  run s st [] = ok (st, [])
  run s st ((a, e) ∷ events) = do
    (st', commands) ← step s a st e
    (last, more) ← run s st' events
    ok (last, commands ++ more)
