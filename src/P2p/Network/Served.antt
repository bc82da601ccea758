-- ===== src/P2p/Network/Served.antt =====
-- From the client's request to its response (src/p2p/src/swarm.rs, `run_client` with `run_worker`).
use inference_mesh.Base.{
  ℕ, ◌<◌, ◌≡◌, refl, sym, ap, ◌∙◌, subst, true, none, List, [], ◌∷◌, length, ok, arith,
}
use inference_mesh.Protocol.Schema.{IsFaithful}
use inference_mesh.Protocol.Request.{ForwardPassRequest, Payload}
use inference_mesh.Protocol.Request.RoundTrip.{Carries, IsSendable, IsSmall}
use inference_mesh.Protocol.Response.{ForwardPassResponse}
use inference_mesh.Protocol.Response.RoundTrip as Answer
use inference_mesh.P2p.Net.{Net, Answers, response_received, send_request}
use inference_mesh.P2p.Client
use inference_mesh.P2p.Client.{
  Job, ClientState, continue, finished, build_chain, chain_of, dedup_chain, client_payload,
  is_ready,
}
use inference_mesh.P2p.Client.Requests.{build_chain_sends}
use inference_mesh.P2p.Network.{Hop, Trip, route_of, ArePatient, LastReplies}
use inference_mesh.P2p.Network.Delivery.{Delivered, deliver}

first_same {ℓ} : {A : Type ℓ} {x y : A} {xs ys : List A} → x ∷ xs ≡ y ∷ ys → x ≡ y
first_same e = cc e

module _ (net : Net) where
  open net use {PeerId, OutboundRequestId}

  abbrev pub client_chain : Job net → ClientState net → List PeerId
  client_chain job st = dedup_chain net.wire.same (chain_of net st.providers job.layers)

  -- With faithful libraries and sizes within the limits, a client that knows a provider for every
  -- layer sends one request; workers with the ids of its chain hand it on in order to the last, which
  -- echoes it or computes, and the response comes back through each of them, whatever other events
  -- they handle while they wait, short of errors and of the request's id given twice; and the client
  -- returns it, with the id 1 and the payload of the last worker's answer.
  pub client_served :
      IsFaithful net.wire
      → (job : Job net) (st : ClientState net) → is_ready net job st ≡ true
      → ((hop : ℕ)
          → hop < length (client_chain job st)
          → IsSendable net.wire (client_chain job st) hop 1 (client_payload job.payload) none)
      → (h : Hop net) (hops : List (Hop net)) → client_chain job st ≡ route_of net (h ∷ hops)
      → ArePatient net (h ∷ hops)
      → (out : Payload) → LastReplies net (h ∷ hops) (client_payload job.payload) out
      → IsSmall out
      → net.wire.response_fits (Answer.message 1 out) ≡ true
      → (a : Answers net) (id : OutboundRequestId)
      → (request : ForwardPassRequest) × (sent : ClientState net) × (response : ForwardPassResponse)
        × (build_chain net job st
            ≡ ok (continue sent (send_request h.settings.local_peer_id request ∷ [])))
        × Trip net (h ∷ hops) request response
        × (Client.step net job a sent (response_received id response) ≡ ok (finished response))
        × Answer.Carries net.wire response 1 out
  unfolding Client.step Delivered
  client_served f job st ready sendable h hops route patient out replies small fits a id =
      let (first, rest, request, chain, _, built, carries) =
        build_chain_sends net job st f ready (sendable 0 (omega (arith, ap length route))) in
      let here =
        subst (λ ps. Carries net.wire request ps 0 1 (client_payload job.payload) none) (sym chain)
          carries in
      let sent = record st { current_chain = first ∷ rest; chain_built = true } in
      let (response, trip, answer) =
        deliver net f (client_chain job st) 1 (client_payload job.payload) out none small fits
          sendable h hops 0 request here route patient replies in
      (
        request,
        sent,
        response,
        built
            ∙ ap (λ p. ok (continue sent (send_request p request ∷ [])))
                (first_same (sym chain ∙ route)),
        trip,
        refl,
        answer,
      )
