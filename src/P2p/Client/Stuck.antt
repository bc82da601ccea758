-- ===== src/P2p/Client/Stuck.antt =====
-- A client that waits for ever (src/p2p/src/swarm.rs, `run_client`).
use inference_mesh.Base.{
  ℕ, ◌≡◌, refl, ◌⊎◌, inl, inr, true, false, none, some, List, [], ◌∷◌, ◌++◌, All, Result, ok, arith,
}
use inference_mesh.Base.HashMap
use inference_mesh.Base.HashMap.{HashMap, contains_key}
use inference_mesh.P2p.Net.{
  Net, KadEvent, SwarmEvent, Command, Answers, kademlia, new_listen_addr, connection_established,
  inbound_request, response_received, outbound_failure, identify_received, other_event,
  routing_updated, found_providers, finished_with_no_additional_record, other_kad,
}
use inference_mesh.P2p.Worker.{add_bootstrap_addr}
use inference_mesh.P2p.Client.{
  ClientState, Job, Next, continue, on_query, take_first, send_queries, all_found, build_chain,
  on_kademlia, step, run,
}
use inference_mesh.P2p.Client.Retries.{requests, requests-append, requests-map_add_address}

module _ (net : Net) (job : Job net) where
  -- Every query is over, a layer has no provider, and no request is under way.
  pub record IsStuck (st : ClientState net) : Type 0 where
    pub joined : st.bootstrapped ≡ true
    pub asked : st.queries_sent ≡ true
    pub over : st.pending_queries ≡ []
    pub idle : st.chain_built ≡ false
    pub missing : all_found net st.providers job.layers ≡ false

  -- No request is under way, so that neither a response nor a failure can come.
  abbrev pub IsQuiet : Answers net × SwarmEvent net → Type 0
  IsQuiet (a, response_received id r) = ⊥
  IsQuiet (a, outbound_failure id p) = ⊥
  IsQuiet (a, kademlia e) = Unit
  IsQuiet (a, new_listen_addr addr) = Unit
  IsQuiet (a, connection_established p addr) = Unit
  IsQuiet (a, inbound_request p r c) = Unit
  IsQuiet (a, identify_received p addrs) = Unit
  IsQuiet (a, other_event) = Unit

  -- After the event the client is stuck, and it sent no request.
  abbrev Waits : Result (Next net) → Type 0
  Waits r =
      (st : ClientState net) × (commands : List (Command net)) × (r ≡ ok (continue st commands))
      × IsStuck st
      × (requests net commands ≡ 0)

  get_over :
      (st : ClientState net)
      → IsStuck st
      → (id : net.QueryId) → HashMap.get net.same_query id st.pending_queries ≡ none
  get_over st s id = rw s.over (unfold HashMap.get in refl)

  on_query-IsStuck :
      (a : Answers net) (st : ClientState net) (e : KadEvent net)
      → IsStuck st
      → IsStuck (on_query net a st e)
  unfolding on_query
  on_query-IsStuck a st (routing_updated true) s = record {
    joined = refl;
    asked = s.asked;
    over = s.over;
    idle = s.idle;
    missing = s.missing;
  }
  on_query-IsStuck a st (routing_updated false) s = s
  on_query-IsStuck a st (found_providers id found) s = rw (get_over st s id, on_query) s
  on_query-IsStuck a st (finished_with_no_additional_record id) s =
      rw (get_over st s id, on_query) s
  on_query-IsStuck a st other_kad s = s

  settle :
      (a : Answers net) (st : ClientState net)
      → IsStuck st
      → (send_queries net job a st ≡ (st, [])) × (build_chain net job st ≡ ok (continue st []))
  unfolding send_queries build_chain
  settle a st s = ground (arith, s.asked, s.missing)

  on_kademlia-Waits :
      (a : Answers net) (st : ClientState net) (e : KadEvent net)
      → IsStuck st
      → Waits (on_kademlia net job a st e)
  unfolding on_kademlia
  on_kademlia-Waits a st e s =
      let s' = on_query-IsStuck a st e s in
      let (asked, built) = settle a (on_query net a st e) s' in
      (on_query net a st e, [], rw (asked, built) refl, s', unfold requests in refl)

  step-Waits :
      (a : Answers net) (st : ClientState net) (e : SwarmEvent net)
      → IsQuiet (a, e)
      → IsStuck st
      → Waits (step net job a st e)
  unfolding step requests
  step-Waits a st (kademlia e) q s = on_kademlia-Waits a st e s
  step-Waits a st (response_received id r) q s = elim q [ ]
  step-Waits a st (outbound_failure id p) q s = elim q [ ]
  step-Waits a st (new_listen_addr addr) q s = (st, [], refl, s, refl)
  step-Waits a st (inbound_request p r c) q s = (st, [], refl, s, refl)
  step-Waits a st other_event q s = (st, [], refl, s, refl)
  step-Waits a st (identify_received p addrs) q s =
      (st, _, refl, s, requests-map_add_address net p addrs)
  step-Waits a st (connection_established p addr) q s = (
    record st { bootstrap_triggered = (add_bootstrap_addr net st.bootstrap_triggered p addr).0 },
    (add_bootstrap_addr net st.bootstrap_triggered p addr).1,
    refl,
    record {
      joined = s.joined;
      asked = s.asked;
      over = s.over;
      idle = s.idle;
      missing = s.missing;
    },
    unfold add_bootstrap_addr in ground arith,
  )

  -- Whatever the network does next, short of answers to requests that the client never sent, a stuck
  -- client goes on for ever without sending a request and without an error.
  pub run-IsStuck :
      (st : ClientState net) (events : List (Answers net × SwarmEvent net))
      → All IsQuiet events
      → IsStuck st
      → (last : ClientState net) × (commands : List (Command net)) × (run net job st events
          ≡ ok (continue last commands))
        × IsStuck last
        × (requests net commands ≡ 0)
  unfolding run
  run-IsStuck st [] q s = (st, [], refl, s, unfold requests in refl)
  run-IsStuck st ((a, e) ∷ events) (q, qs) s =
      let (mid, first, stepped, s1, none_first) = step-Waits a st e q s in
      let (last, more, went, s2, none_more) = run-IsStuck mid events qs s1 in
      (
        last,
        first ++ more,
        rw (stepped, run) (rw (went, run) refl),
        s2,
        omega (arith, requests-append net first more, none_first, none_more),
      )

  only_query :
      (id : net.QueryId) (layer : ℕ)
      → (HashMap.get net.same_query id ((id, layer) ∷ []) ≡ some layer)
        × (HashMap.remove net.same_query id ((id, layer) ∷ []) ≡ [])
  unfolding HashMap.get HashMap.remove
  only_query id layer = ground arith

  query_over :
      (a : Answers net) (st : ClientState net) (id : net.QueryId) (layer : ℕ) (e : KadEvent net)
      → (e ≡ found_providers id []) ⊎ (e ≡ finished_with_no_additional_record id)
      → st.pending_queries ≡ (id, layer) ∷ []
      → on_query net a st e ≡ record st { pending_queries = [] }
  unfolding on_query take_first
  query_over a st id layer e (inl h) p = rw h (ground (arith, only_query id layer))
  query_over a st id layer e (inr h) p = rw h (ground (arith, only_query id layer))

  -- The client becomes stuck when its last query ends without a peer for its layer, one of those that
  -- the client wants: whether no provider is found or the query finishes.
  pub last_query_sticks :
      (a : Answers net) (st : ClientState net) (id : net.QueryId) (layer : ℕ) (e : KadEvent net)
      → (e ≡ found_providers id []) ⊎ (e ≡ finished_with_no_additional_record id)
      → st.bootstrapped ≡ true
      → st.queries_sent ≡ true
      → st.pending_queries ≡ (id, layer) ∷ []
      → st.chain_built ≡ false
      → all_found net st.providers job.layers ≡ false
      → Waits (step net job a st (kademlia e))
  unfolding step on_kademlia
  last_query_sticks a st id layer e h b q p idle missing =
      let after : ClientState net = record st { pending_queries = [] } in
      let s : IsStuck after = record {
        joined = b;
        asked = q;
        over = refl;
        idle = idle;
        missing = missing;
      } in
      let (asked, built) = settle a after s in
      (
        after,
        [],
        rw (query_over a st id layer e h p, asked, built) refl,
        s,
        unfold requests in refl,
      )
