-- ===== src/P2p/Worker/Counts.antt =====
-- How often a channel stands among commands, waiting forwards and events (src/p2p/src/swarm.rs).
use inference_mesh.Base.{ℕ, ◌+◌, ◌≤◌, ◌≡◌, refl, ite, some, List, [], ◌∷◌, ◌++◌, map, arith}
use inference_mesh.Base.HashMap
use inference_mesh.Base.HashMap.{HashMap}
use inference_mesh.P2p.Net.{
  Net, SwarmEvent, Command, Answers, kademlia, new_listen_addr, connection_established,
  inbound_request, response_received, outbound_failure, identify_received, other_event, dial,
  add_address, bootstrap, start_providing, put_record, get_providers, send_request, send_response,
}

module _ (net : Net) (same : Discrete net.Channel) (channel : net.Channel) where
  open net use {Channel, OutboundRequestId, Multiaddr, PeerId}

  unfoldable pub answered : List (Command net) → ℕ
  answered [] = 0
  answered (send_response c response ∷ commands) = ite (same c channel) 1 0 + answered commands
  answered (dial a ∷ commands) = answered commands
  answered (add_address p a ∷ commands) = answered commands
  answered (bootstrap ∷ commands) = answered commands
  answered (start_providing k ∷ commands) = answered commands
  answered (put_record k v ∷ commands) = answered commands
  answered (get_providers k ∷ commands) = answered commands
  answered (send_request p r ∷ commands) = answered commands

  unfoldable pub waiting : HashMap OutboundRequestId Channel → ℕ
  waiting [] = 0
  waiting ((id, c) ∷ m) = ite (same c channel) 1 0 + waiting m

  unfoldable pub received : List (Answers net × SwarmEvent net) → ℕ
  received [] = 0
  received ((a, inbound_request p r c) ∷ events) = ite (same c channel) 1 0 + received events
  received ((a, kademlia e) ∷ events) = received events
  received ((a, new_listen_addr addr) ∷ events) = received events
  received ((a, connection_established p addr) ∷ events) = received events
  received ((a, response_received id r) ∷ events) = received events
  received ((a, outbound_failure id p) ∷ events) = received events
  received ((a, identify_received p addrs) ∷ events) = received events
  received ((a, other_event) ∷ events) = received events

  pub answered-append :
      (xs ys : List (Command net)) → answered (xs ++ ys) ≡ answered xs + answered ys
  unfolding answered
  answered-append [] ys = omega arith
  answered-append (send_response c response ∷ xs) ys = omega (arith, answered-append xs ys)
  answered-append (dial a ∷ xs) ys = answered-append xs ys
  answered-append (add_address p a ∷ xs) ys = answered-append xs ys
  answered-append (bootstrap ∷ xs) ys = answered-append xs ys
  answered-append (start_providing k ∷ xs) ys = answered-append xs ys
  answered-append (put_record k v ∷ xs) ys = answered-append xs ys
  answered-append (get_providers k ∷ xs) ys = answered-append xs ys
  answered-append (send_request p r ∷ xs) ys = answered-append xs ys

  pub answered-map_add_address :
      (p : PeerId) (addrs : List Multiaddr) → answered (map (add_address p) addrs) ≡ 0
  unfolding answered
  answered-map_add_address p [] = refl
  answered-map_add_address p (a ∷ addrs) = answered-map_add_address p addrs

  pub waiting-insert :
      (id : OutboundRequestId) (c : Channel) (m : HashMap OutboundRequestId Channel)
      → waiting (HashMap.insert net.same_outbound id c m) ≤ ite (same c channel) 1 0 + waiting m
  unfolding waiting HashMap.insert
  waiting-insert id c [] = omega arith
  waiting-insert id c ((i, d) ∷ m) = ground (arith, waiting-insert id c m)

  waiting-remove_le :
      (id : OutboundRequestId) (m : HashMap OutboundRequestId Channel)
      → waiting (HashMap.remove net.same_outbound id m) ≤ waiting m
  unfolding waiting HashMap.remove
  waiting-remove_le id [] = omega arith
  waiting-remove_le id ((i, d) ∷ m) = ground (arith, waiting-remove_le id m)

  pub waiting-remove :
      (id : OutboundRequestId) (c : Channel) (m : HashMap OutboundRequestId Channel)
      → HashMap.get net.same_outbound id m ≡ some c
      → ite (same c channel) 1 0 + waiting (HashMap.remove net.same_outbound id m) ≤ waiting m
  unfolding waiting HashMap.remove HashMap.get
  waiting-remove id c [] e = cc
  waiting-remove id c ((i, d) ∷ m) e = ground (arith, waiting-remove id c m, waiting-remove_le id m)
