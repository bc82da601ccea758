-- ===== src/P2p/Bootstrap.antt =====
-- src/p2p/src/swarm.rs, the bootstrap node: the loop of `run_bootstrap` after it listens. It keeps no
-- state, and what `handle_kad_event` does with Kademlia's events is logging.
use inference_mesh.Base.{List, [], ◌∷◌, ◌++◌, map}
use inference_mesh.P2p.Net.{
  Net, KadEvent, SwarmEvent, Command, kademlia, new_listen_addr, connection_established,
  inbound_request, response_received, outbound_failure, identify_received, other_event, add_address,
}

module _ (net : Net) where
  abbrev pub handle_kad_event : KadEvent net → List (Command net)
  handle_kad_event e = []

  unfoldable pub step : SwarmEvent net → List (Command net)
  step (kademlia e) = handle_kad_event e
  step (identify_received peer_id addrs) = map (add_address peer_id) addrs
  step (new_listen_addr address) = []
  step (connection_established peer_id addr) = add_address peer_id addr ∷ []
  step (inbound_request peer request channel) = []
  step (response_received id response) = []
  step (outbound_failure id peer) = []
  step other_event = []

  -- The loop, over the events that the swarm delivers. It never ends by itself.
  unfoldable pub run : List (SwarmEvent net) → List (Command net)
  unfolding step
  run [] = []
  run (e ∷ events) = step e ++ run events
