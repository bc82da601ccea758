-- ===== src/P2p/Network.antt =====
-- A request on its way through the workers of src/p2p/src/swarm.rs, as libp2p delivers it: what one
-- worker sends to a peer comes to that peer as an event, and a response goes back on its channel.
pub mod Delivery
pub mod Served
use inference_mesh.Base.{ℕ, ◌≡◌, Option, none, some, List, [], ◌∷◌, map, Result, ok}
use inference_mesh.Base.HashMap
use inference_mesh.Protocol.Request.{ForwardPassRequest, Payload}
use inference_mesh.Protocol.Response.{ForwardPassResponse}
use inference_mesh.P2p.Net.{
  Net, SwarmEvent, Command, Answers, Engine, inbound_request, response_received, send_request,
  send_response,
}
use inference_mesh.P2p.Worker.{WorkerState, Settings, output_bytes, step, run}
use inference_mesh.P2p.Worker.Kept.{AreOthers}

module _ (net : Net) where
  open net use {PeerId, Channel}

  -- One worker on the way: its state when the request comes from `from` on `channel`, the events
  -- that it handles while it waits for the response, and its state when the response comes.
  pub record Hop : Type 0 where
    pub settings : Settings net
    pub state : WorkerState net
    pub answers : Answers net
    pub from : PeerId
    pub channel : Channel
    pub meanwhile : List (Answers net × SwarmEvent net)
    pub later : WorkerState net
    pub others : List (Command net)
    pub answers_later : Answers net

  -- The steps by which the workers hand on a request and its response.
  pub data Trip : List Hop → ForwardPassRequest → ForwardPassResponse → Type 0 where
    last :
        {h : Hop} {r : ForwardPassRequest} {response : ForwardPassResponse}
        → step net h.settings h.answers h.state (inbound_request h.from r h.channel)
          ≡ ok (h.state, send_response h.channel response ∷ [])
        → Trip (h ∷ []) r response
    pass :
        {h k : Hop} {hops : List Hop} {r next : ForwardPassRequest} {response : ForwardPassResponse}
        {waiting after : WorkerState net}
        → step net h.settings h.answers h.state (inbound_request h.from r h.channel)
          ≡ ok (waiting, send_request k.settings.local_peer_id next ∷ [])
        → Trip (k ∷ hops) next response
        → run net h.settings waiting h.meanwhile ≡ ok (h.later, h.others)
        → step net h.settings h.answers_later h.later
            (response_received h.answers.outbound_id response)
          ≡ ok (after, send_response h.channel response ∷ [])
        → Trip (h ∷ k ∷ hops) r response

  abbrev pub route_of : List Hop → List PeerId
  route_of hops = map (λ h. h.settings.local_peer_id) hops

  -- The state of a worker that has sent the request on.
  abbrev pub waiting_state : Hop → WorkerState net
  waiting_state h = record h.state {
    pending_forwards =
        HashMap.insert net.same_outbound h.answers.outbound_id h.channel h.state.pending_forwards;
  }

  -- What a worker does while it waits ends well, and is not about the request.
  abbrev pub IsPatient : Hop → Type 0
  IsPatient h =
      (run net h.settings (waiting_state h) h.meanwhile ≡ ok (h.later, h.others))
      × AreOthers net h.answers.outbound_id h.meanwhile

  -- All workers but the last wait.
  abbrev pub ArePatient : List Hop → Type 0
  ArePatient [] = Unit
  ArePatient (h ∷ []) = Unit
  ArePatient (h ∷ k ∷ hops) = IsPatient h × ArePatient (k ∷ hops)

  -- What the last worker answers to a tensor.
  pub data Replies (s : Settings net) (t out : Payload) : Type 0 where
    echoes : s.engine ≡ none → out ≡ t → Replies s t out
    computes :
        (engine : Engine) (output_vec : List ℕ)
        → s.engine ≡ some engine
        → engine s.start_layer s.end_layer t.bytes t.dtype t.shape ≡ ok output_vec
        → out ≡ record t { bytes = output_bytes output_vec }
        → Replies s t out

  abbrev pub LastReplies : List Hop → Payload → Payload → Type 0
  LastReplies [] t out = ⊥
  LastReplies (h ∷ []) t out = Replies h.settings t out
  LastReplies (h ∷ k ∷ hops) t out = LastReplies (k ∷ hops) t out
