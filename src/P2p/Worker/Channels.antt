-- ===== src/P2p/Worker/Channels.antt =====
-- How often the worker answers on a channel (src/p2p/src/swarm.rs, `run_worker`).
use inference_mesh.Base.{
  ℕ, ◌+◌, ◌≤◌, ◌≡◌, refl, inl, inr, Bool, true, false, not, ◌&&◌, if◌then◌else◌, Option, none, some,
  Option-cases, List, [], ◌∷◌, ok, >>=-eq-ok, unwrap_or, arith,
}
use inference_mesh.Base.HashMap
use inference_mesh.Base.HashMap.{HashMap}
use inference_mesh.Protocol.Request
use inference_mesh.Protocol.Request.{ForwardPassRequest}
use inference_mesh.Protocol.Response.{ForwardPassResponse}
use inference_mesh.P2p.Net.{
  Net, KadEvent, SwarmEvent, Command, Answers, kademlia, new_listen_addr, connection_established,
  inbound_request, response_received, outbound_failure, identify_received, other_event,
}
use inference_mesh.P2p.Dht.{layers_between}
use inference_mesh.P2p.Worker.{
  answer_request, announce_now, is_new_peer, WorkerState, Settings, handle_terminal_hop,
  provide_layers, announce, address_commands, on_kademlia, on_listen_addr, add_bootstrap_addr,
  forward_request, on_request, on_response, on_outbound_failure, step, run, init,
}
use inference_mesh.P2p.Worker.Terminal.{handle_terminal_hop-IsAnswer}
use inference_mesh.P2p.Worker.Counts.{
  answered, waiting, received, answered-append, answered-map_add_address, waiting-insert,
  waiting-remove,
}

module _ (net : Net) where
  open net use {Channel, OutboundRequestId, Multiaddr, PeerId}

  module _ (same : Discrete Channel) (channel : Channel) where
    answered-provide_layers :
        (a : Answers net) (layers : List ℕ) (commands : List (Command net))
        → provide_layers net a layers ≡ ok commands
        → answered net same channel commands ≡ 0
    unfolding provide_layers answered
    answered-provide_layers a [] commands e = ground arith
    answered-provide_layers a (l ∷ layers) commands e =
        let (rest, first, last) = >>=-eq-ok (provide_layers net a layers) _ e in
        ground (arith, answered-provide_layers a layers rest first)

    -- After an event, the answers given and the requests still waiting are no more than the requests
    -- that waited before and the one that the event brought.
    abbrev Balanced :
        WorkerState net
        → Answers net
        → SwarmEvent net
        → WorkerState net
        → List (Command net)
        → Type 0
    Balanced st a e st' commands =
        answered net same channel commands + waiting net same channel st'.pending_forwards
        ≤ waiting net same channel st.pending_forwards + received net same channel ((a, e) ∷ [])

    answered-address_commands :
        (s : Settings net) (addr : Option Multiaddr)
        → answered net same channel (address_commands net s addr) ≡ 0
    unfolding answered
    answered-address_commands s none = refl
    answered-address_commands s (some addr) = refl

    announce_now_silent :
        (s : Settings net) (a : Answers net) (st st' : WorkerState net)
        (commands : List (Command net))
        → announce_now net s a st ≡ ok (st', commands)
        → (answered net same channel commands ≡ 0) × (st'.pending_forwards ≡ st.pending_forwards)
    unfolding announce_now
    announce_now_silent s a st st' commands e =
        let layers = layers_between s.start_layer s.end_layer in
        let (first, provided, rest) = >>=-eq-ok (provide_layers net a layers) _ e in
        ground (
          arith,
          answered-provide_layers a layers first provided,
          answered-append net same channel first (address_commands net s st.listen_addr),
          answered-address_commands s st.listen_addr,
        )

    on_kademlia_silent :
        (s : Settings net) (a : Answers net) (st st' : WorkerState net) (e : KadEvent net)
        (commands : List (Command net))
        → on_kademlia net s a st e ≡ ok (st', commands)
        → (answered net same channel commands ≡ 0) × (st'.pending_forwards ≡ st.pending_forwards)
    unfolding on_kademlia announce answered
    on_kademlia_silent s a st st' e commands h =
        let old : WorkerState net =
          if not st.bootstrapped && is_new_peer net e
          then record st { bootstrapped = true }
          else st in
        ground (arith, announce_now_silent s a old st' commands)

    forward_request-Balanced :
        (a : Answers net) (st st' : WorkerState net) (p : PeerId) (request : ForwardPassRequest)
        (c : Channel) (commands : List (Command net))
        → forward_request net a st request c ≡ ok (st', commands)
        → Balanced st a (inbound_request p request c) st' commands
    unfolding forward_request answered received
    forward_request-Balanced a st st' p request c commands h =
        ground (arith, waiting-insert net same channel a.outbound_id c st.pending_forwards)

    answer-Balanced :
        (s : Settings net) (a : Answers net) (st st' : WorkerState net) (p : PeerId) (rid : ℕ)
        (request : ForwardPassRequest) (c : Channel) (commands : List (Command net))
        → answer_request net s st rid request c ≡ ok (st', commands)
        → Balanced st a (inbound_request p request c) st' commands
    unfolding answer_request answered received
    answer-Balanced s a st st' p rid request c commands h =
        let (done, handled, rest) = >>=-eq-ok (handle_terminal_hop net s c rid request) _ h in
        let (response, one) = handle_terminal_hop-IsAnswer net s c rid request done handled in
        ground arith

    on_request-Balanced :
        (s : Settings net) (a : Answers net) (st st' : WorkerState net) (p : PeerId)
        (request : ForwardPassRequest) (c : Channel) (commands : List (Command net))
        → on_request net s a st request c ≡ ok (st', commands)
        → Balanced st a (inbound_request p request c) st' commands
    unfolding on_request
    on_request-Balanced s a st st' p request c commands h =
        let (rid, _, h1) = >>=-eq-ok (unwrap_or (Request.request_id request) 0) _ h in
        let (terminal, _, h2) =
          >>=-eq-ok (unwrap_or (Request.is_terminal net.wire request) false) _ h1 in
        choose terminal rid h2
      where
        choose :
            (terminal : Bool) (rid : ℕ)
            → (if terminal
                then answer_request net s st rid request c
                else forward_request net a st request c)
              ≡ ok (st', commands)
            → Balanced st a (inbound_request p request c) st' commands
        choose true rid e = answer-Balanced s a st st' p rid request c commands e
        choose false rid e = forward_request-Balanced a st st' p request c commands e

    on_response-Balanced :
        (a : Answers net) (st : WorkerState net) (id : OutboundRequestId)
        (response : ForwardPassResponse)
        → Balanced st a
            (response_received id response)
            (on_response net st id response).0
            (on_response net st id response).1
    unfolding on_response answered received
    on_response-Balanced a st id response =
        elim (Option-cases (HashMap.get net.same_outbound id st.pending_forwards)) [
          | inl e ↦ rw (e, on_response) (omega arith)
          | inr (c, e) ↦
              rw (e, on_response)
                (omega (arith, waiting-remove net same channel id c st.pending_forwards e))
        ]

    on_outbound_failure-Balanced :
        (a : Answers net) (st st' : WorkerState net) (id : OutboundRequestId) (p : PeerId)
        (commands : List (Command net))
        → on_outbound_failure net st id ≡ ok (st', commands)
        → Balanced st a (outbound_failure id p) st' commands
    unfolding on_outbound_failure answered received
    on_outbound_failure-Balanced a st st' id p commands h =
        elim (Option-cases (HashMap.get net.same_outbound id st.pending_forwards)) [
          | inl e ↦ ground arith
          | inr (c, e) ↦ ground (arith, waiting-remove net same channel id c st.pending_forwards e)
        ]

    step-Balanced :
        (s : Settings net) (a : Answers net) (st st' : WorkerState net) (e : SwarmEvent net)
        (commands : List (Command net))
        → step net s a st e ≡ ok (st', commands)
        → Balanced st a e st' commands
    unfolding step received
    step-Balanced s a st st' (kademlia e) commands h =
        ground (arith, on_kademlia_silent s a st st' e commands)
    step-Balanced s a st st' (new_listen_addr addr) commands h =
        unfold on_listen_addr answered in ground arith
    step-Balanced s a st st' (connection_established p addr) commands h =
        unfold add_bootstrap_addr answered in ground arith
    step-Balanced s a st st' (inbound_request p request c) commands h =
        on_request-Balanced s a st st' p request c commands h
    step-Balanced s a st st' (response_received id response) commands h =
        ground (arith, on_response-Balanced a st id response)
    step-Balanced s a st st' (outbound_failure id p) commands h =
        on_outbound_failure-Balanced a st st' id p commands h
    step-Balanced s a st st' (identify_received p addrs) commands h =
        ground (arith, answered-map_add_address net same channel p addrs)
    step-Balanced s a st st' other_event commands h = unfold answered in ground arith

    received-cons :
        (a : Answers net) (e : SwarmEvent net) (events : List (Answers net × SwarmEvent net))
        → received net same channel ((a, e) ∷ events)
          ≡ received net same channel ((a, e) ∷ []) + received net same channel events
    unfolding received
    received-cons a (inbound_request p r c) events = omega arith
    received-cons a (kademlia e) events = omega arith
    received-cons a (new_listen_addr addr) events = omega arith
    received-cons a (connection_established p addr) events = omega arith
    received-cons a (response_received id r) events = omega arith
    received-cons a (outbound_failure id p) events = omega arith
    received-cons a (identify_received p addrs) events = omega arith
    received-cons a other_event events = omega arith

    run-Balanced :
        (s : Settings net) (st st' : WorkerState net) (events : List (Answers net × SwarmEvent net))
        (commands : List (Command net))
        → run net s st events ≡ ok (st', commands)
        → answered net same channel commands + waiting net same channel st'.pending_forwards
          ≤ waiting net same channel st.pending_forwards + received net same channel events
    unfolding run
    run-Balanced s st st' [] commands h = unfold answered received in ground arith
    run-Balanced s st st' ((a, e) ∷ events) commands h =
        let ((mid, first), stepped, h1) = >>=-eq-ok (step net s a st e) _ h in
        let ((last, more), went, h2) = >>=-eq-ok (run net s mid events) _ h1 in
        ground (
          arith,
          step-Balanced s a st mid e first stepped,
          run-Balanced s mid last events more went,
          received-cons a e events,
          answered-append net same channel first more,
        )

    -- However the events come, and whatever ids the swarm gives its requests, a worker that has not
    -- ended has answered a channel at most as often as requests came on it, and the requests that it
    -- still forwards for the channel count as well.
    pub run_answers_at_most_once :
        (s : Settings net) (st' : WorkerState net) (events : List (Answers net × SwarmEvent net))
        (commands : List (Command net))
        → run net s (init net) events ≡ ok (st', commands)
        → answered net same channel commands + waiting net same channel st'.pending_forwards
          ≤ received net same channel events
    unfolding init waiting
    run_answers_at_most_once s st' events commands h =
        omega (arith, run-Balanced s (init net) st' events commands h)
