-- ===== src/P2p/Network/Delivery.antt =====
-- A request reaches the last worker of its route, and the response comes back (src/p2p/src/swarm.rs).
use inference_mesh.Base.{
  some-injective, ℕ, ◌+◌, ◌-◌, ◌<◌, ◌≡◌, refl, sym, ap, ◌∙◌, subst, true, Option, some, List, [],
  ◌∷◌, length, drop, drop_next, get_elem?_of_drop, get_elem?_below, length-drop, ok, if_pos, arith,
}
use inference_mesh.Base.HashMap
use inference_mesh.Base.HashMap.{get-insert}
use inference_mesh.Protocol.Schema.{IsFaithful}
use inference_mesh.Protocol.Request.{ForwardPassRequest, Payload}
use inference_mesh.Protocol.Request.RoundTrip.{Carries, IsSendable, IsSmall}
use inference_mesh.Protocol.Response.{ForwardPassResponse}
use inference_mesh.Protocol.Response.RoundTrip as Answer
use inference_mesh.P2p.Net.{Net, response_received, send_request, send_response}
use inference_mesh.P2p.Worker.{WorkerState, step}
use inference_mesh.P2p.Worker.Kept.{run_keeps}
use inference_mesh.P2p.Worker.Replies.{step_echo, step_compute, step_forward, step_response}
use inference_mesh.P2p.Network.{
  Hop, Trip, last, pass, route_of, waiting_state, IsPatient, ArePatient, Replies, echoes, computes,
  LastReplies,
}

module _ (net : Net) where
  open net use {PeerId, Channel}

  -- A worker that waits gets the response and gives it back.
  back :
      (h : Hop net) (response : ForwardPassResponse)
      → IsPatient net h
      → (after : WorkerState net) × (step net h.settings h.answers_later h.later
            (response_received h.answers.outbound_id response)
          ≡ ok (after, send_response h.channel response ∷ []))
  back h response (ran, others) =
      let waits : HashMap.get net.same_outbound h.answers.outbound_id h.later.pending_forwards
          ≡ some h.channel =
        run_keeps net h.answers.outbound_id h.settings (waiting_state net h) h.later h.meanwhile
          h.others others ran
        ∙ (get-insert net.same_outbound h.answers.outbound_id h.answers.outbound_id h.channel
              h.state.pending_forwards
            ∙ if_pos (net.same_outbound h.answers.outbound_id h.answers.outbound_id) refl _ _) in
      let (after, stepped, _) =
        step_response net h.settings h.answers_later h.later h.answers.outbound_id h.channel
          response response waits in
      (after, stepped)

  unfoldable pub Delivered : List (Hop net) → ForwardPassRequest → ℕ → Payload → Type 0
  Delivered hops r rid out =
      (response : ForwardPassResponse) × Trip net hops r response
      × Answer.Carries net.wire response rid out

  module _ (f : IsFaithful net.wire) (peers : List PeerId) (rid : ℕ) (t out : Payload)
      (m : Option Payload) (small : IsSmall out)
      (fits : net.wire.response_fits (Answer.message rid out) ≡ true) where
    -- The last worker echoes or computes.
    last_trip :
        (h : Hop net) (hop : ℕ) (r : ForwardPassRequest)
        → Carries net.wire r peers hop rid t m
        → hop ≡ length peers - 1
        → Replies net h.settings t out
        → Delivered (h ∷ []) r rid out
    unfolding Delivered
    last_trip h hop r c at_end (echoes alone same) =
        let (response, stepped, carries) =
          step_echo net h.settings h.answers h.state h.from h.channel r c f alone at_end
            (subst IsSmall same small)
            (ap (λ x. net.wire.response_fits (Answer.message rid x)) (sym same) ∙ fits) in
        (response, last stepped, subst (Answer.Carries net.wire response rid) (sym same) carries)
    last_trip h hop r c at_end (computes engine output_vec has_engine computed same) =
        let (response, stepped, carries) =
          step_compute net h.settings h.answers h.state h.from h.channel r c f engine output_vec
            has_engine computed at_end (subst IsSmall same small)
            (ap (λ x. net.wire.response_fits (Answer.message rid x)) (sym same) ∙ fits) in
        (response, last stepped, subst (Answer.Carries net.wire response rid) (sym same) carries)

    pub deliver :
        ((hop : ℕ) → hop < length peers → IsSendable net.wire peers hop rid t m)
        → (h : Hop net) (hops : List (Hop net)) (hop : ℕ) (r : ForwardPassRequest)
        → Carries net.wire r peers hop rid t m
        → drop hop peers ≡ route_of net (h ∷ hops)
        → ArePatient net (h ∷ hops)
        → LastReplies net (h ∷ hops) t out
        → Delivered (h ∷ hops) r rid out
    unfolding Delivered
    deliver sendable h [] hop r c at patient replies =
        last_trip h hop r c (omega (arith, ap length at, length-drop hop peers)) replies
    deliver sendable h (k ∷ hops) hop r c at (patient, rest) replies =
        let next_at = drop_next peers hop at in
        let here = get_elem?_of_drop peers (hop + 1) next_at in
        let within = get_elem?_below peers (hop + 1) here in
        let (next_peer, next, stepped, found, c') =
          step_forward net h.settings h.answers h.state h.from h.channel r c f within
            (sendable (hop + 1) within) in
        let (response, trip, carries) =
          deliver sendable k hops (hop + 1) next c' next_at rest replies in
        let (after, given) = back h response patient in
        let peer_is : next_peer ≡ k.settings.local_peer_id = some-injective (sym found ∙ here) in
        let sent = stepped ∙ ap (λ p. ok (waiting_state net h, send_request p next ∷ [])) peer_is in
        (response, pass sent trip patient.0 given, carries)
