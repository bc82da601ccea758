-- ===== src/P2p/StreamClient/Payloads.antt =====
-- What becomes of a payload (src/p2p/src/swarm.rs, `run_stream_client`).
use inference_mesh.Base.{
  ℕ, ◌+◌, ◌≤◌, ◌≡◌, refl, sym, ◌∙◌, inl, inr, Bool, true, false, leb, Bool-cases, Option, none,
  some, List, [], ◌∷◌, Result, ok, err, panic, arith,
}
use inference_mesh.Protocol.Response.{ForwardPassResponse}
use inference_mesh.P2p.Net.{
  Net, KadEvent, SwarmEvent, Command, Answers, kademlia, new_listen_addr, connection_established,
  inbound_request, response_received, outbound_failure, identify_received, other_event, add_address,
  dial, bootstrap, start_providing, put_record, get_providers, send_request, send_response,
}
use inference_mesh.P2p.Worker.{add_bootstrap_addr}
use inference_mesh.P2p.Client.{
  ClientState, Job, is_ready, on_query, send_queries, fail_over, dedup_chain, chain_of,
}
use inference_mesh.P2p.Client.Retries.{
  requests, requests-append, requests-map_add_address, on_query-Kept, send_queries-Kept,
}
use inference_mesh.P2p.StreamClient.{
  StreamPayload, StreamState, StreamNext, continue, stopped, event, requeue, send_payload, launch,
  send_pending, use_chain, build_chain, after_commands, on_kademlia, on_response, on_failure, step,
}

module _ (net : Net) where
  open net use {PeerId}

  -- The payload waits for a chain, or its request is under way on the chain; and no other payload is held.
  pub data Holds (p : StreamPayload) (s : StreamState net) : Type 0 where
    waits :
        s.pending_payload ≡ some p
        → s.inflight_payload ≡ none
        → s.client.chain_built ≡ false
        → Holds p s
    travels :
        s.pending_payload ≡ none
        → s.inflight_payload ≡ some p
        → s.client.chain_built ≡ true
        → Holds p s

  abbrev pub under_way : Option StreamPayload → ℕ
  under_way none = 0
  under_way (some p) = 1

  -- What an event makes of a payload that a state holds.
  pub data Fate (p : StreamPayload) (s : StreamState net) (e : SwarmEvent net)
      : StreamNext net → Type 0 where
    held :
        {s' : StreamState net} {commands : List (Command net)}
        → Holds p s'
        → requests net commands + under_way s.inflight_payload ≤ 1
        → Fate p s e (continue s' commands [])
    answered :
        {s' : StreamState net} {id : net.OutboundRequestId} {r : ForwardPassResponse}
        → e ≡ response_received id r
        → s.inflight_payload ≡ some p
        → s'.pending_payload ≡ none
        → s'.inflight_payload ≡ none
        → Fate p s e (continue s' [] (ok r ∷ []))
    late :
        {s' : StreamState net} {id : net.OutboundRequestId} {r : ForwardPassResponse}
        → e ≡ response_received id r
        → s.inflight_payload ≡ none
        → Holds p s'
        → Fate p s e (continue s' [] (ok r ∷ []))
    ended :
        {replies : List (Result ForwardPassResponse)} {result : Result (Unit {0})}
        → Fate p s e (stopped replies result)

  Holds-le :
      (p : StreamPayload) (s : StreamState net) → Holds p s → under_way s.inflight_payload ≤ 1
  Holds-le p s (waits h k c) = rw k (omega arith)
  Holds-le p s (travels h k c) = rw k (omega arith)

  on_failure-Fate :
      (job : Job net) (p : StreamPayload) (s : StreamState net) (id : net.OutboundRequestId)
      (peer : PeerId)
      → Holds p s
      → Fate p s (outbound_failure id peer) (on_failure net job s peer)
  unfolding on_failure
  on_failure-Fate job p s id peer h = elim (Bool-cases (leb 3 s.client.retry_count)) [
    | inl spent ↦ rw spent ended
    | inr left ↦
        rw left (held {commands = []} (again h) (unfold requests in omega (arith, Holds-le p s h)))
  ]
    where
      again :
          Holds p s
          → Holds p (record {
            client = fail_over net job s.client peer;
            pending_payload = requeue net s.inflight_payload s.pending_payload;
            inflight_payload = none;
          })
      again (waits a b c) = waits (rw b a) refl (unfold fail_over in refl)
      again (travels a b c) = waits (rw b refl) refl (unfold fail_over in refl)

  requests-one : (c : Command net) → requests net (c ∷ []) ≤ 1
  unfolding requests
  requests-one (send_request p r) = omega arith
  requests-one (send_response c r) = omega arith
  requests-one (dial a) = omega arith
  requests-one (add_address p a) = omega arith
  requests-one bootstrap = omega arith
  requests-one (start_providing k) = omega arith
  requests-one (put_record k v) = omega arith
  requests-one (get_providers k) = omega arith

  launch-Fate :
      (p : StreamPayload) (s s0 : StreamState net) (e : SwarmEvent net)
      → s.pending_payload ≡ none
      → s.client.chain_built ≡ true
      → s0.inflight_payload ≡ none
      → Fate p s0 e (launch net s p)
  unfolding launch
  launch-Fate p s s0 e empty built idle =
      elim (send_payload net s.client.current_chain p)
        as (λ x. Fate p s0 e (elim x [
          | ok command ↦ continue (record s { inflight_payload = some p }) (command ∷ []) []
          | err x ↦ stopped [] (err x)
          | panic ↦ stopped [] panic
        ])) [
          | ok command ↦
              held (travels empty refl built) (rw idle (omega (arith, requests-one command)))
          | err x ↦ ended
          | panic ↦ ended
        ]

  still :
      (p : StreamPayload) (s s0 : StreamState net) (e : SwarmEvent net)
      → Holds p s
      → s.inflight_payload ≡ s0.inflight_payload
      → Fate p s0 e (continue s [] [])
  still p s s0 e h same =
      let alone : under_way s0.inflight_payload ≤ 1 = rw same at (Holds-le p s h) in
      held {commands = []} h (unfold requests in omega (arith, alone))

  use_chain-Fate :
      (p : StreamPayload) (s s0 : StreamState net) (e : SwarmEvent net) (chain : List PeerId)
      → s.pending_payload ≡ some p
      → s.inflight_payload ≡ none
      → s.client.chain_built ≡ false
      → s.inflight_payload ≡ s0.inflight_payload
      → Fate p s0 e (use_chain net s chain)
  unfolding use_chain send_pending
  use_chain-Fate p s s0 e [] a b c same = elim (Bool-cases (leb 3 s.client.retry_count)) [
    | inl spent ↦ rw spent ended
    | inr left ↦ rw left (
        still p (record s { client = record s.client { queries_sent = false } }) s0 e (waits a b c)
          same)
  ]
  use_chain-Fate p s s0 e (first ∷ chain) a b c same =
      let ready : StreamState net = record s {
        client = record s.client { current_chain = first ∷ chain; chain_built = true };
        pending_payload = none;
      } in
      rw a (launch-Fate p ready s0 e refl refl (sym same ∙ b))

  build_chain-Fate :
      (job : Job net) (p : StreamPayload) (s s0 : StreamState net) (e : SwarmEvent net)
      → Holds p s
      → s.inflight_payload ≡ s0.inflight_payload
      → Fate p s0 e (build_chain net job s)
  unfolding build_chain
  build_chain-Fate job p s s0 e (travels a b c) same =
      let busy : is_ready net job s.client ≡ false = rw c refl in
      rw busy (still p s s0 e (travels a b c) same)
  build_chain-Fate job p s s0 e (waits a b c) same = elim (Bool-cases (is_ready net job s.client)) [
    | inl ready ↦ rw ready (
        use_chain-Fate p s s0 e
          (dedup_chain net.wire.same (chain_of net s.client.providers job.layers)) a b c same)
    | inr waiting ↦ rw waiting (still p s s0 e (waits a b c) same)
  ]

  after_commands-Fate :
      (p : StreamPayload) (s : StreamState net) (k : KadEvent net) (commands : List (Command net))
      (n : StreamNext net)
      → requests net commands ≡ 0
      → Fate p s (kademlia k) n
      → Fate p s (kademlia k) (after_commands net commands n)
  after_commands-Fate p s k commands n none_sent (held {commands = more} h le) =
      held h (omega (arith, requests-append net commands more, none_sent, le))
  after_commands-Fate p s k commands n none_sent (answered e a b c) = cc
  after_commands-Fate p s k commands n none_sent (late e a b) = cc
  after_commands-Fate p s k commands n none_sent ended = ended

  Holds-Kept :
      (p : StreamPayload) (s : StreamState net) (st : ClientState net)
      → st.chain_built ≡ s.client.chain_built
      → Holds p s
      → Holds p (record s { client = st })
  Holds-Kept p s st same (waits a b c) = waits a b (same ∙ c)
  Holds-Kept p s st same (travels a b c) = travels a b (same ∙ c)

  on_kademlia-Fate :
      (job : Job net) (a : Answers net) (p : StreamPayload) (s : StreamState net) (k : KadEvent net)
      → Holds p s
      → Fate p s (kademlia k) (on_kademlia net job a s k)
  unfolding on_kademlia
  on_kademlia-Fate job a p s k h =
      let found = on_query net a s.client k in
      let asked = send_queries net job a found in
      let (kept, none_sent) = send_queries-Kept net job a found in
      let h' = Holds-Kept p s asked.0 (kept.1 ∙ (on_query-Kept net a s.client k).1) h in
      after_commands-Fate p s k asked.1 (build_chain net job (record s { client = asked.0 }))
        none_sent (build_chain-Fate job p (record s { client = asked.0 }) s (kademlia k) h' refl)

  on_response-Fate :
      (receiver : Bool) (p : StreamPayload) (s : StreamState net) (id : net.OutboundRequestId)
      (r : ForwardPassResponse)
      → Holds p s
      → Fate p s (response_received id r) (on_response net receiver s r)
  unfolding on_response
  on_response-Fate false p s id r h = ended
  on_response-Fate true p s id r (waits a b c) = late refl b (waits a refl c)
  on_response-Fate true p s id r (travels a b c) = answered refl b a refl

  -- A payload that the client holds, alone, is not lost by any event: it is still held, and no request
  -- is sent while its request is under way; or the response to it came, is passed on, and nothing is
  -- held any more; or a response came while it waits, is passed on, and the payload is still held; or
  -- the client has returned.
  pub step-Fate :
      (job : Job net) (a : Answers net) (receiver : Bool) (p : StreamPayload) (s : StreamState net)
      (e : SwarmEvent net)
      → Holds p s
      → Fate p s e (step net job a receiver s (event e))
  unfolding step
  step-Fate job a receiver p s (kademlia k) h = on_kademlia-Fate job a p s k h
  step-Fate job a receiver p s (response_received id r) h = on_response-Fate receiver p s id r h
  step-Fate job a receiver p s (outbound_failure id peer) h = on_failure-Fate job p s id peer h
  step-Fate job a receiver p s (new_listen_addr addr) h = still p s s _ h refl
  step-Fate job a receiver p s (inbound_request peer r c) h = still p s s _ h refl
  step-Fate job a receiver p s other_event h = still p s s _ h refl
  step-Fate job a receiver p s (identify_received peer addrs) h =
      held h (omega (arith, requests-map_add_address net peer addrs, Holds-le p s h))
  step-Fate job a receiver p s (connection_established peer addr) h =
      held {commands = (add_bootstrap_addr net s.client.bootstrap_triggered peer addr).1}
        (Holds-Kept p s _ refl h)
        (unfold add_bootstrap_addr requests in ground (arith, Holds-le p s h))
