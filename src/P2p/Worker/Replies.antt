-- ===== src/P2p/Worker/Replies.antt =====
-- What the worker answers to a request (src/p2p/src/swarm.rs, `run_worker` and `handle_terminal_hop`).
use inference_mesh.Base.{
  ℕ, ◌+◌, ◌-◌, ◌<◌, ◌≤◌, ◌≡◌, refl, ap, ◌∙◌, inl, inr, true, false, ==-refl, Option, none, some,
  Option-cases, List, [], ◌∷◌, map, length, get_elem?, Error, ok, err, panic, u32_mod, arith,
}
use inference_mesh.Base.HashMap
use inference_mesh.Base.HashMap.{get-remove}
use inference_mesh.Protocol.Schema.{Bytes, IsFaithful, RequestReader, TensorReader}
use inference_mesh.Protocol.Dtype.{from_capnp_res}
use inference_mesh.Protocol.Request.{
  ForwardPassRequest, Payload, is_terminal, route, hop_index, request_id, tensor_dtype, tensor_data,
}
use inference_mesh.Protocol.Request.RoundTrip.{
  Carries, IsSendable, IsSmall, is_terminal_lem, read_peers_lem,
}
use inference_mesh.Protocol.Response.{ForwardPassResponse}
use inference_mesh.Protocol.Response
use inference_mesh.Protocol.Response.RoundTrip as Answer
use inference_mesh.P2p.Routing.Relay.{build_next_request-Carries, build_next_request_past_end}
use inference_mesh.P2p.Net.{
  Net, Answers, Engine, inbound_request, response_received, outbound_failure, send_request,
  send_response,
}
use inference_mesh.P2p.Worker.{
  WorkerState, Settings, output_bytes, empty_payload, send_echo_response, send_empty, answer_output,
  handle_terminal_hop, answer_request, forward_request, on_request, on_response, failure_response,
  on_outbound_failure, step,
}

module _ (net : Net) where
  open net use {PeerId, Channel, OutboundRequestId}

  module _ (s : Settings net) (a : Answers net) (st : WorkerState net) (peer : PeerId)
      (channel : Channel) {peers : List PeerId} {hop rid : ℕ} {t : Payload} {m : Option Payload}
      (r : ForwardPassRequest) (c : Carries net.wire r peers hop rid t m) where
    at_terminal : hop ≡ length peers - 1 → is_terminal net.wire r ≡ ok true
    at_terminal e = is_terminal_lem net.wire r c ∙ ap ok (rw e (==-refl _))

    terminal_step :
        hop ≡ length peers - 1
        → step net s a st (inbound_request peer r channel) ≡ answer_request net s st rid r channel
    unfolding step on_request
    terminal_step e = rw (c.has_id, at_terminal e) refl

    -- A worker without an engine answers a terminal request with the tensor that it got, under the
    -- id of the request, and its state does not change.
    pub step_echo :
        IsFaithful net.wire
        → s.engine ≡ none
        → hop ≡ length peers - 1
        → IsSmall t
        → net.wire.response_fits (Answer.message rid t) ≡ true
        → (response : ForwardPassResponse) × (step net s a st (inbound_request peer r channel)
            ≡ ok (st, send_response channel response ∷ []))
          × Answer.Carries net.wire response rid t
    unfolding answer_request handle_terminal_hop send_echo_response
    step_echo f none_here e small fits =
        let (response, built, carries) =
          Answer.build_response-Carries net.wire f rid t small fits in
        (
          response,
          terminal_step e
              ∙ rw (none_here, handle_terminal_hop, c.has_dtype, c.has_shape, c.has_data, built)
                  refl,
          carries,
        )

    output_answer :
        (out : List ℕ) (response : ForwardPassResponse)
        → Response.build net.wire rid (record t { bytes = output_bytes out }) ≡ ok response
        → answer_output net channel rid r out ≡ ok (send_response channel response ∷ [])
    unfolding answer_output
    output_answer out response built = ground (arith, c.has_shape, c.has_dtype)

    -- A worker whose engine gives an output answers a terminal request with the bytes of that output,
    -- under the id, the element type and the shape of the request.
    pub step_compute :
        IsFaithful net.wire
        → (process_terminal_pass : Engine) (output_vec : List ℕ)
        → s.engine ≡ some process_terminal_pass
        → process_terminal_pass s.start_layer s.end_layer t.bytes t.dtype t.shape ≡ ok output_vec
        → hop ≡ length peers - 1
        → IsSmall (record t { bytes = output_bytes output_vec })
        → net.wire.response_fits (Answer.message rid (record t { bytes = output_bytes output_vec }))
          ≡ true
        → (response : ForwardPassResponse) × (step net s a st (inbound_request peer r channel)
            ≡ ok (st, send_response channel response ∷ []))
          × Answer.Carries net.wire response rid (record t { bytes = output_bytes output_vec })
    unfolding answer_request handle_terminal_hop answer_output
    step_compute f eng out has_engine computed e small fits =
        let (response, built, carries) =
          Answer.build_response-Carries net.wire f rid _ small fits in
        (
          response,
          terminal_step e
              ∙ rw (has_engine, handle_terminal_hop, c.has_dtype, c.has_shape, c.has_data, computed)
                  (rw (output_answer out response built) refl),
          carries,
        )

    -- Where the engine fails the answer has the id of the request and no data.
    pub step_compute_failed :
        IsFaithful net.wire
        → (process_terminal_pass : Engine) (e : Error) → s.engine ≡ some process_terminal_pass
        → process_terminal_pass s.start_layer s.end_layer t.bytes t.dtype t.shape ≡ err e
        → hop ≡ length peers - 1
        → net.wire.response_fits (Answer.message rid empty_payload) ≡ true
        → (response : ForwardPassResponse) × (step net s a st (inbound_request peer r channel)
            ≡ ok (st, send_response channel response ∷ []))
          × Answer.Carries net.wire response rid empty_payload
    unfolding answer_request handle_terminal_hop send_empty
    step_compute_failed f eng x has_engine failed e fits =
        let (response, built, carries) =
          Answer.build_response-Carries net.wire f rid empty_payload (omega arith) fits in
        (
          response,
          terminal_step e
              ∙ rw
                  (
                    has_engine, handle_terminal_hop, c.has_dtype, c.has_shape, c.has_data, failed,
                    send_empty, built,
                  )
                  refl,
          carries,
        )

    -- Before the end of the route the worker sends the request for the next hop to the next peer of
    -- the route, and keeps the channel under the id of what it sent.
    pub step_forward :
        IsFaithful net.wire
        → hop + 1 < length peers
        → IsSendable net.wire peers (hop + 1) rid t m
        → (next_peer : PeerId) × (next : ForwardPassRequest) × (step net s a st
              (inbound_request peer r channel)
            ≡ ok (
              record st {
                pending_forwards =
                    HashMap.insert net.same_outbound a.outbound_id channel st.pending_forwards;
              },
              send_request next_peer next ∷ [],
            ))
          × (get_elem? peers (hop + 1) ≡ some next_peer)
          × Carries net.wire next peers (hop + 1) rid t m
    unfolding step on_request forward_request
    step_forward f h sendable =
        let (next_peer, next, built, found, carries) =
          build_next_request-Carries net.wire f hop r c sendable h in
        let not_last : is_terminal net.wire r ≡ ok false =
          is_terminal_lem net.wire r c ∙ ap ok (ground arith) in
        (
          next_peer,
          next,
          rw (c.has_id, not_last) (rw (built, forward_request) refl),
          found,
          carries,
        )

    -- A request, which any peer can send, whose hop is past the end of its route, makes the worker
    -- panic, where the hop is not 0 and one more than it is still below 2 ^ 32: the sum does not wrap
    -- to the first peer of the route.
    pub step_past_end :
        length peers ≤ hop
        → 0 < hop
        → hop + 1 < u32_mod
        → step net s a st (inbound_request peer r channel) ≡ panic
    unfolding step on_request forward_request
    step_past_end past pos small =
        let (not_last, fails) = build_next_request_past_end net.wire hop r c past pos small in
        rw (c.has_id, not_last) (rw (fails, forward_request) refl)

  module _ (s : Settings net) (a : Answers net) (st : WorkerState net) where
    -- Where libp2p reads the bytes of a peer back as that peer: a message that any peer can send, whose
    -- route is of peers, whose hop is the last of them, and whose tensor has data and an element type
    -- that is not in the schema, ends the worker with the error of an unknown type, with an engine and
    -- without, and gets no answer.
    pub step_unknown_dtype :
        IsFaithful net.wire
        → (peer : PeerId) (channel : Channel) (packed : Bytes) (reader : RequestReader)
          (tensor : TensorReader) (peers : List PeerId) (bytes : Bytes)
        → reader.get_route ≡ some (map some (map net.wire.to_bytes peers))
        → reader.get_hop_index ≡ length peers - 1
        → reader.get_tensor ≡ some tensor
        → tensor.get_data ≡ some bytes
        → tensor.get_dtype ≡ none
        → step net s a st
            (inbound_request peer (record { bytes = packed; msg = some reader }) channel)
          ≡ err Error.unknown_dtype
    unfolding step on_request answer_request handle_terminal_hop send_echo_response request_id
        is_terminal route hop_index tensor_data tensor_dtype from_capnp_res
    step_unknown_dtype f peer channel packed reader tensor peers bytes has_route last has_tensor
          has_bytes odd =
        rw (has_route, read_peers_lem net.wire f peers, last, ==-refl (length peers - 1))
          (elim (Option-cases s.engine) [
            | inl none_here ↦ rw (none_here, handle_terminal_hop, has_tensor, odd) refl
            | inr (eng, has_engine) ↦
                rw (has_engine, handle_terminal_hop, has_tensor, has_bytes, odd) refl
          ])

    -- A response goes back, as it is, on the channel of the request that was sent on, and the worker
    -- forgets the request, so that a second response under the id is ignored.
    pub step_response :
        (id : OutboundRequestId) (channel : Channel) (response again : ForwardPassResponse)
        → HashMap.get net.same_outbound id st.pending_forwards ≡ some channel
        → (after : WorkerState net) × (step net s a st (response_received id response)
            ≡ ok (after, send_response channel response ∷ []))
          × (step net s a after (response_received id again) ≡ ok (after, []))
    unfolding step on_response
    step_response id channel response again e = (
      record st { pending_forwards = HashMap.remove net.same_outbound id st.pending_forwards },
      rw (e, on_response) refl,
      ground (arith, get-remove net.same_outbound id id st.pending_forwards),
    )

    -- Where the next hop cannot be reached, the channel of the request gets a response with no data
    -- and the id 0, whatever the id of the request was.
    pub step_outbound_failure :
        IsFaithful net.wire
        → (id : OutboundRequestId) (peer : PeerId) (channel : Channel)
        → HashMap.get net.same_outbound id st.pending_forwards ≡ some channel
        → net.wire.response_fits (Answer.message 0 empty_payload) ≡ true
        → (response : ForwardPassResponse) × (step net s a st (outbound_failure id peer)
            ≡ ok (
              record st {
                pending_forwards = HashMap.remove net.same_outbound id st.pending_forwards;
              },
              send_response channel response ∷ [],
            ))
          × Answer.Carries net.wire response 0 empty_payload
    unfolding step on_outbound_failure failure_response
    step_outbound_failure f id peer channel e fits =
        let (response, built, carries) =
          Answer.build_response-Carries net.wire f 0 empty_payload (omega arith) fits in
        (response, rw (e, on_outbound_failure) (rw (built, failure_response) refl), carries)
