-- ===== src/P2p/Client/Retries.antt =====
-- How often the client sends its request (src/p2p/src/swarm.rs, `run_client`).
use inference_mesh.Base.{
  ℕ, ◌+◌, ◌≤◌, ◌≡◌, refl, Bool, true, false, Bool-cases, inl, inr, List, [], ◌∷◌, ◌++◌, map, ok,
  >>=-eq-ok, arith,
}
use inference_mesh.P2p.Net.{
  Net, KadEvent, SwarmEvent, Command, Answers, kademlia, new_listen_addr, connection_established,
  inbound_request, response_received, outbound_failure, identify_received, other_event,
  routing_updated, found_providers, finished_with_no_additional_record, other_kad, dial,
  add_address, bootstrap, start_providing, put_record, get_providers, send_request, send_response,
}
use inference_mesh.P2p.Worker.{add_bootstrap_addr}
use inference_mesh.P2p.Client.{
  ClientState, Job, Next, continue, finished, max_retries, init, on_query, take_first, send_queries,
  query_commands, send_chain, is_ready, build_chain, after_commands, on_kademlia, on_failure,
  fail_over, step,
}

module _ (net : Net) where
  open net use {PeerId, Multiaddr}

  unfoldable pub requests : List (Command net) → ℕ
  requests [] = 0
  requests (send_request p r ∷ commands) = 1 + requests commands
  requests (send_response c r ∷ commands) = requests commands
  requests (dial a ∷ commands) = requests commands
  requests (add_address p a ∷ commands) = requests commands
  requests (bootstrap ∷ commands) = requests commands
  requests (start_providing k ∷ commands) = requests commands
  requests (put_record k v ∷ commands) = requests commands
  requests (get_providers k ∷ commands) = requests commands

  abbrev pub failures : SwarmEvent net → ℕ
  failures (outbound_failure id p) = 1
  failures (kademlia e) = 0
  failures (new_listen_addr a) = 0
  failures (connection_established p a) = 0
  failures (inbound_request p r c) = 0
  failures (response_received id r) = 0
  failures (identify_received p addrs) = 0
  failures other_event = 0

  -- The client is still running in a state, after it has sent so many requests and been told of so
  -- many failures.
  pub data Running (job : Job net) : ClientState net → ℕ → ℕ → Type 0 where
    start : Running job (init net) 0 0
    after :
        {st st' : ClientState net} {sent failed : ℕ} (a : Answers net) (e : SwarmEvent net)
        (commands : List (Command net))
        → Running job st sent failed
        → step net job a st e ≡ ok (continue st' commands)
        → Running job st' (sent + requests commands) (failed + failures e)

  abbrev open_request : Bool → ℕ
  open_request true = 1
  open_request false = 0

  open_request-le : (b : Bool) → open_request b ≤ 1
  open_request-le true = omega arith
  open_request-le false = omega arith

  -- The counter counts the failures, and every request but the one that is under way has failed.
  record IsCounted (st : ClientState net) (sent failed : ℕ) : Type 0 where
    counted : st.retry_count ≡ failed
    few : st.retry_count ≤ max_retries
    settled : sent ≤ st.retry_count + open_request st.chain_built

  pub requests-append :
      (xs ys : List (Command net)) → requests (xs ++ ys) ≡ requests xs + requests ys
  unfolding requests
  requests-append [] ys = omega arith
  requests-append (send_request p r ∷ xs) ys = omega (arith, requests-append xs ys)
  requests-append (send_response c r ∷ xs) ys = requests-append xs ys
  requests-append (dial a ∷ xs) ys = requests-append xs ys
  requests-append (add_address p a ∷ xs) ys = requests-append xs ys
  requests-append (bootstrap ∷ xs) ys = requests-append xs ys
  requests-append (start_providing k ∷ xs) ys = requests-append xs ys
  requests-append (put_record k v ∷ xs) ys = requests-append xs ys
  requests-append (get_providers k ∷ xs) ys = requests-append xs ys

  requests-query_commands : (layers : List ℕ) → requests (query_commands net layers) ≡ 0
  unfolding requests
  requests-query_commands [] = refl
  requests-query_commands (l ∷ layers) = requests-query_commands layers

  pub requests-map_add_address :
      (p : PeerId) (addrs : List Multiaddr) → requests (map (add_address p) addrs) ≡ 0
  unfolding requests
  requests-map_add_address p [] = refl
  requests-map_add_address p (a ∷ addrs) = requests-map_add_address p addrs

  -- A query's end changes neither the counter nor what is under way.
  abbrev pub Kept : ClientState net → ClientState net → Type 0
  Kept st st' = (st'.retry_count ≡ st.retry_count) × (st'.chain_built ≡ st.chain_built)

  take_first-Kept :
      (now layer : ℕ) (found : List PeerId) (st : ClientState net)
      → Kept st (take_first net now layer found st)
  unfolding take_first
  take_first-Kept now layer [] st = (refl, refl)
  take_first-Kept now layer (p ∷ found) st = (refl, refl)

  pub on_query-Kept :
      (a : Answers net) (st : ClientState net) (e : KadEvent net) → Kept st (on_query net a st e)
  unfolding on_query
  on_query-Kept a st (routing_updated true) = (refl, refl)
  on_query-Kept a st (routing_updated false) = (refl, refl)
  on_query-Kept a st (found_providers id []) = unfold take_first in ground arith
  on_query-Kept a st (found_providers id (p ∷ found)) = unfold take_first in ground arith
  on_query-Kept a st (finished_with_no_additional_record id) = ground arith
  on_query-Kept a st other_kad = (refl, refl)

  pub send_queries-Kept :
      (job : Job net) (a : Answers net) (st : ClientState net)
      → Kept st (send_queries net job a st).0 × (requests (send_queries net job a st).1 ≡ 0)
  unfolding send_queries
  send_queries-Kept job a st = unfold requests in ground (arith, requests-query_commands job.layers)

  -- What the chain step does to the counts.
  abbrev Advances : ClientState net → ClientState net → List (Command net) → Type 0
  Advances st st' commands =
      (st'.retry_count ≡ st.retry_count)
      × (requests commands + open_request st.chain_built ≤ open_request st'.chain_built)

  send_chain-Advances :
      (job : Job net) (st st' : ClientState net) (chain : List PeerId)
      (commands : List (Command net))
      → st.chain_built ≡ false
      → send_chain net job st chain ≡ ok (continue st' commands)
      → Advances st st' commands
  unfolding send_chain
  send_chain-Advances job st st' [] commands idle e = unfold requests in ground arith
  send_chain-Advances job st st' (p ∷ chain) commands idle e = unfold requests in ground arith

  build_chain-Advances :
      (job : Job net) (st st' : ClientState net) (commands : List (Command net))
      → build_chain net job st ≡ ok (continue st' commands)
      → Advances st st' commands
  unfolding build_chain
  build_chain-Advances job st st' commands e = elim (Bool-cases (is_ready net job st)) [
    | inl ready ↦
        send_chain-Advances job st st' _ commands (ground arith) (rw (ready, build_chain) at e)
    | inr idle ↦ unfold requests in ground arith
  ]

  after_commands_lem :
      (commands : List (Command net)) (next : Next net) (st' : ClientState net)
      (all : List (Command net))
      → ok (after_commands net commands next) ≡ ok (continue st' all)
      → (more : List (Command net)) × (next ≡ continue st' more) × (all ≡ commands ++ more)
  after_commands_lem commands (continue st more) st' all e = (more, ground arith, ground arith)
  after_commands_lem commands (finished r) st' all e = cc

  on_kademlia-Advances :
      (job : Job net) (a : Answers net) (st st' : ClientState net) (e : KadEvent net)
      (commands : List (Command net))
      → on_kademlia net job a st e ≡ ok (continue st' commands)
      → Advances st st' commands
  unfolding on_kademlia
  on_kademlia-Advances job a st st' e commands h =
      let found = on_query net a st e in
      let asked = send_queries net job a found in
      let (next, built, rest) = >>=-eq-ok (build_chain net job asked.0) _ h in
      let (more, same_next, split) = after_commands_lem asked.1 next st' commands rest in
      let chained = build_chain-Advances job asked.0 st' more (rw same_next at built) in
      ground (
        arith,
        chained,
        on_query-Kept a st e,
        send_queries-Kept job a found,
        requests-append asked.1 more,
      )

  step-IsCounted :
      (job : Job net) (a : Answers net) (st st' : ClientState net) (e : SwarmEvent net)
      (commands : List (Command net)) (sent failed : ℕ)
      → IsCounted st sent failed
      → step net job a st e ≡ ok (continue st' commands)
      → IsCounted st' (sent + requests commands) (failed + failures e)
  unfolding step
  step-IsCounted job a st st' (kademlia e) commands sent failed c h =
      ground (arith, on_kademlia-Advances job a st st' e commands)
  step-IsCounted job a st st' (outbound_failure id p) commands sent failed c h =
      unfold on_failure fail_over requests in ground arith
  step-IsCounted job a st st' (connection_established p addr) commands sent failed c h =
      unfold add_bootstrap_addr requests in ground arith
  step-IsCounted job a st st' (response_received id r) commands sent failed c h = cc
  step-IsCounted job a st st' (identify_received p addrs) commands sent failed c h =
      ground (arith, requests-map_add_address p addrs)
  step-IsCounted job a st st' (new_listen_addr addr) commands sent failed c h =
      unfold requests in ground arith
  step-IsCounted job a st st' (inbound_request p r ch) commands sent failed c h =
      unfold requests in ground arith
  step-IsCounted job a st st' other_event commands sent failed c h = unfold requests in ground arith

  Running-IsCounted :
      {job : Job net} {st : ClientState net} {sent failed : ℕ}
      → Running job st sent failed
      → IsCounted st sent failed
  Running-IsCounted start =
      unfold init in record { counted = refl; few = omega arith; settled = omega arith }
  Running-IsCounted (after {st = st} {st' = st'} {sent = sent} {failed = failed} a e commands r h) =
      step-IsCounted _ a st st' e commands sent failed (Running-IsCounted r) h

  -- While the client runs it has been told of at most three failed requests, which is what its
  -- counter says, and it has sent at most one request more than failed: four at most.
  pub Running-bounds :
      {job : Job net} {st : ClientState net} {sent failed : ℕ}
      → Running job st sent failed
      → (failed ≤ 3) × (st.retry_count ≡ failed) × (sent ≤ failed + 1)
  Running-bounds {st = st} r =
      let c = Running-IsCounted r in
      (
        omega (arith, c.counted, c.few),
        c.counted,
        omega (arith, c.counted, c.settled, open_request-le st.chain_built),
      )
