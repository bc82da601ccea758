-- ===== src/P2p/Net.antt =====
-- What src/p2p/src/swarm.rs takes from libp2p, and the events and commands by which its event
-- loops talk with the swarm. The types that only libp2p makes values of are parameters.
use inference_mesh.Base.{ℕ, Bool, List, Result}
use inference_mesh.Protocol.Schema.{Bytes, Wire}
use inference_mesh.Protocol.Dtype.{Dtype}
use inference_mesh.Protocol.Request.{ForwardPassRequest}
use inference_mesh.Protocol.Response.{ForwardPassResponse}

pub record Net : Type 1 where
  pub PeerId : Type 0
  pub Multiaddr : Type 0
  pub Channel : Type 0
  pub OutboundRequestId : Type 0
  pub QueryId : Type 0
  pub wire : Wire PeerId
  pub same_outbound : Discrete OutboundRequestId
  pub same_query : Discrete QueryId
  -- `addr.to_string().into_bytes()`.
  pub addr_bytes : Multiaddr → Bytes

module _ (net : Net) where
  open net use {PeerId, Multiaddr, Channel, OutboundRequestId, QueryId}

  -- `kad::Event`, as far as the loops tell its cases apart.
  pub data KadEvent : Type 0 where
    routing_updated : Bool → KadEvent
    found_providers : QueryId → List PeerId → KadEvent
    finished_with_no_additional_record : QueryId → KadEvent
    other_kad : KadEvent

  -- `SwarmEvent`. `other_event` stands for the events that are only logged.
  pub data SwarmEvent : Type 0 where
    kademlia : KadEvent → SwarmEvent
    new_listen_addr : Multiaddr → SwarmEvent
    connection_established : PeerId → Multiaddr → SwarmEvent
    inbound_request : PeerId → ForwardPassRequest → Channel → SwarmEvent
    response_received : OutboundRequestId → ForwardPassResponse → SwarmEvent
    outbound_failure : OutboundRequestId → PeerId → SwarmEvent
    identify_received : PeerId → List Multiaddr → SwarmEvent
    other_event : SwarmEvent

  -- What a loop asks of the swarm.
  pub data Command : Type 0 where
    dial : Multiaddr → Command
    add_address : PeerId → Multiaddr → Command
    bootstrap : Command
    start_providing : Bytes → Command
    put_record : Bytes → Bytes → Command
    get_providers : Bytes → Command
    send_request : PeerId → ForwardPassRequest → Command
    send_response : Channel → ForwardPassResponse → Command

  -- What the swarm answers while one event is handled: whether it takes a key to provide, and the
  -- ids of the request and of the queries that it starts; and what the clock shows.
  pub record Answers : Type 0 where
    pub provides : Bytes → Bool
    pub outbound_id : OutboundRequestId
    pub query_id : ℕ → QueryId
    pub now : ℕ

-- A compute engine, as the worker calls it: `process_terminal_pass` from the first to the last layer
-- on a tensor with no mask. A `Vec<f32>` is the list of the bit patterns of its elements.
abbrev pub Engine : Type 0
Engine = ℕ → ℕ → Bytes → Dtype → List ℕ → Result (List ℕ)
