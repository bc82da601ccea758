-- ===== src/P2p/Worker/Kept.antt =====
-- A request that was sent on stays in the worker's table while other events come
-- (src/p2p/src/swarm.rs, `run_worker`).
use inference_mesh.Base.{
  ℕ, ◌≡◌, ◌≢◌, ap, ◌∙◌, Bool, true, false, not, ◌&&◌, if◌then◌else◌, Option, List, [], ◌∷◌, if_neg,
  ok, >>=-eq-ok, unwrap_or, arith,
}
use inference_mesh.Base.HashMap
use inference_mesh.Base.HashMap.{HashMap, get-insert, get-remove}
use inference_mesh.Protocol.Request
use inference_mesh.Protocol.Request.{ForwardPassRequest}
use inference_mesh.P2p.Net.{
  Net, KadEvent, SwarmEvent, Command, Answers, kademlia, new_listen_addr, connection_established,
  inbound_request, response_received, outbound_failure, identify_received, other_event,
}
use inference_mesh.P2p.Dht.{layers_between}
use inference_mesh.P2p.Worker.{
  answer_request, announce_now, is_new_peer, WorkerState, Settings, handle_terminal_hop,
  provide_layers, announce, on_kademlia, on_listen_addr, forward_request, on_request, on_response,
  on_outbound_failure, step, run,
}

module _ (net : Net) where
  open net use {Channel, OutboundRequestId}

  module _ (id : OutboundRequestId) where
    -- The event is not the end of the request `id`.
    abbrev pub IsOther : SwarmEvent net → Type 0
    IsOther (response_received j response) = j ≢ id
    IsOther (outbound_failure j p) = j ≢ id
    IsOther (kademlia e) = Unit
    IsOther (new_listen_addr addr) = Unit
    IsOther (connection_established p addr) = Unit
    IsOther (inbound_request p r c) = Unit
    IsOther (identify_received p addrs) = Unit
    IsOther other_event = Unit

    -- Other events, in which the swarm does not give the id to another request.
    abbrev pub AreOthers : List (Answers net × SwarmEvent net) → Type 0
    AreOthers [] = Unit
    AreOthers ((a, e) ∷ events) = (a.outbound_id ≢ id) × IsOther e × AreOthers events

    abbrev waits : WorkerState net → Option Channel
    waits st = HashMap.get net.same_outbound id st.pending_forwards

    insert_other :
        (j : OutboundRequestId) (c : Channel) (m : HashMap OutboundRequestId Channel)
        → j ≢ id
        → HashMap.get net.same_outbound id (HashMap.insert net.same_outbound j c m)
          ≡ HashMap.get net.same_outbound id m
    insert_other j c m other =
        get-insert net.same_outbound j id c m ∙ if_neg (net.same_outbound j id) other _ _

    remove_other :
        (j : OutboundRequestId) (m : HashMap OutboundRequestId Channel)
        → j ≢ id
        → HashMap.get net.same_outbound id (HashMap.remove net.same_outbound j m)
          ≡ HashMap.get net.same_outbound id m
    remove_other j m other =
        get-remove net.same_outbound j id m ∙ if_neg (net.same_outbound j id) other _ _

    announce_now_keeps :
        (s : Settings net) (a : Answers net) (st st' : WorkerState net)
        (commands : List (Command net))
        → announce_now net s a st ≡ ok (st', commands)
        → st'.pending_forwards ≡ st.pending_forwards
    unfolding announce_now
    announce_now_keeps s a st st' commands e =
        let (first, provided, rest) =
          >>=-eq-ok (provide_layers net a (layers_between s.start_layer s.end_layer)) _ e in
        ground arith

    on_kademlia_keeps :
        (s : Settings net) (a : Answers net) (st st' : WorkerState net) (e : KadEvent net)
        (commands : List (Command net))
        → on_kademlia net s a st e ≡ ok (st', commands)
        → st'.pending_forwards ≡ st.pending_forwards
    unfolding on_kademlia announce
    on_kademlia_keeps s a st st' e commands h =
        let old : WorkerState net =
          if not st.bootstrapped && is_new_peer net e
          then record st { bootstrapped = true }
          else st in
        ground (arith, announce_now_keeps s a old st' commands)

    answer_keeps :
        (s : Settings net) (st st' : WorkerState net) (rid : ℕ) (r : ForwardPassRequest)
        (c : Channel) (commands : List (Command net))
        → answer_request net s st rid r c ≡ ok (st', commands)
        → waits st' ≡ waits st
    unfolding answer_request
    answer_keeps s st st' rid r c commands e =
        let (done, handled, rest) = >>=-eq-ok (handle_terminal_hop net s c rid r) _ e in
        ground arith

    forward_keeps :
        (a : Answers net) (st st' : WorkerState net) (r : ForwardPassRequest) (c : Channel)
        (commands : List (Command net))
        → a.outbound_id ≢ id
        → forward_request net a st r c ≡ ok (st', commands)
        → waits st' ≡ waits st
    unfolding forward_request
    forward_keeps a st st' r c commands fresh e =
        ground (arith, insert_other a.outbound_id c st.pending_forwards fresh)

    on_request_keeps :
        (s : Settings net) (a : Answers net) (st st' : WorkerState net) (r : ForwardPassRequest)
        (c : Channel) (commands : List (Command net))
        → a.outbound_id ≢ id
        → on_request net s a st r c ≡ ok (st', commands)
        → waits st' ≡ waits st
    unfolding on_request
    on_request_keeps s a st st' r c commands fresh h =
        let (rid, _, h1) = >>=-eq-ok (unwrap_or (Request.request_id r) 0) _ h in
        let (terminal, _, h2) = >>=-eq-ok (unwrap_or (Request.is_terminal net.wire r) false) _ h1 in
        choose terminal rid h2
      where
        choose :
            (terminal : Bool) (rid : ℕ)
            → (if terminal then answer_request net s st rid r c else forward_request net a st r c)
              ≡ ok (st', commands)
            → waits st' ≡ waits st
        choose true rid e = answer_keeps s st st' rid r c commands e
        choose false rid e = forward_keeps a st st' r c commands fresh e

    step_keeps :
        (s : Settings net) (a : Answers net) (st st' : WorkerState net) (e : SwarmEvent net)
        (commands : List (Command net))
        → a.outbound_id ≢ id
        → IsOther e
        → step net s a st e ≡ ok (st', commands)
        → waits st' ≡ waits st
    unfolding step
    step_keeps s a st st' (kademlia e) commands fresh other h =
        ap (HashMap.get net.same_outbound id) (on_kademlia_keeps s a st st' e commands h)
    step_keeps s a st st' (new_listen_addr addr) commands fresh other h =
        unfold on_listen_addr in ground arith
    step_keeps s a st st' (connection_established p addr) commands fresh other h = ground arith
    step_keeps s a st st' (inbound_request p r c) commands fresh other h =
        on_request_keeps s a st st' r c commands fresh h
    step_keeps s a st st' (response_received j response) commands fresh other h =
        unfold on_response in ground (arith, remove_other j st.pending_forwards other)
    step_keeps s a st st' (outbound_failure j p) commands fresh other h =
        unfold on_outbound_failure in ground (arith, remove_other j st.pending_forwards other)
    step_keeps s a st st' (identify_received p addrs) commands fresh other h = ground arith
    step_keeps s a st st' other_event commands fresh other h = ground arith

    -- Whatever other events come, a request that was sent on waits under its id until it is answered or
    -- its peer fails, as long as the swarm does not give that id again and the worker has not ended.
    pub run_keeps :
        (s : Settings net) (st st' : WorkerState net) (events : List (Answers net × SwarmEvent net))
        (commands : List (Command net))
        → AreOthers events
        → run net s st events ≡ ok (st', commands)
        → HashMap.get net.same_outbound id st'.pending_forwards
          ≡ HashMap.get net.same_outbound id st.pending_forwards
    unfolding run
    run_keeps s st st' [] commands others h = ground arith
    run_keeps s st st' ((a, e) ∷ events) commands (fresh, other, others) h =
        let ((mid, first), stepped, h1) = >>=-eq-ok (step net s a st e) _ h in
        let ((last, more), went, h2) = >>=-eq-ok (run net s mid events) _ h1 in
        ground (
          arith,
          step_keeps s a st mid e first fresh other stepped,
          run_keeps s mid last events more others went,
        )
