-- ===== src/Tests/Served.antt =====
-- A client whose request goes over the peers 7 and 8. Peer 7 hears of an address and announces
-- nothing while it waits, and peer 8 echoes.
use inference_mesh.Base.{ℕ, ◌<◌, ◌≡◌, refl, none, [], ◌∷◌, length, ok, arith}
use inference_mesh.Protocol.Request.{ForwardPassRequest}
use inference_mesh.Protocol.Request.RoundTrip.{IsSendable}
use inference_mesh.Protocol.Response.{ForwardPassResponse}
use inference_mesh.Protocol.Response.RoundTrip as Answer
use inference_mesh.P2p.Net.{
  Answers, response_received, send_request, identify_received, other_event, add_address,
}
use inference_mesh.P2p.Client
use inference_mesh.P2p.Client.{ClientState, continue, finished, build_chain, client_payload}
use inference_mesh.P2p.Worker
use inference_mesh.P2p.Worker.{WorkerState}
use inference_mesh.P2p.Network.{Hop, Trip, ArePatient, echoes, waiting_state}
use inference_mesh.P2p.Network.Served.{client_chain, client_served}
use inference_mesh.Tests.Toy.{wire, wire-IsFaithful, net, answers}
use inference_mesh.Tests.Clients.{job, ready, ready_chain, ready-is_ready}

abbrev hop : ℕ → ℕ → Hop net
hop peer channel = record {
  settings = record { local_peer_id = peer; start_layer = 0; end_layer = 1; engine = none };
  state = Worker.init net;
  answers = answers;
  from = 3;
  channel = channel;
  meanwhile = [];
  later = Worker.init net;
  others = [];
  answers_later = answers;
}

abbrev elsewhere : Answers net
elsewhere = record answers { outbound_id = 6 }

abbrev middle : Hop net
middle = record (hop 7 70) {
  meanwhile = (elsewhere, identify_received 9 (90 ∷ [])) ∷ (elsewhere, other_event) ∷ [];
  later = waiting_state net (hop 7 70);
  others = add_address 9 90 ∷ [];
}

middle-ArePatient : ArePatient net (middle ∷ hop 8 80 ∷ [])
unfolding Worker.run Worker.step
middle-ArePatient = ((refl, ((λ e. omega (arith, e)), tt, ((λ e. omega (arith, e)), tt, tt))), tt)

sendable :
    (at : ℕ)
    → at < length (client_chain net job ready)
    → IsSendable wire (client_chain net job ready) at 1 (client_payload job.payload) none
sendable at below =
    rw ready_chain
      record { small_route = omega arith; small_tensor = omega arith; small_mask = tt; fits = refl }

client_served_example :
    (request : ForwardPassRequest) × (sent : ClientState net) × (response : ForwardPassResponse)
    × (build_chain net job ready ≡ ok (continue sent (send_request 7 request ∷ [])))
    × Trip net (middle ∷ hop 8 80 ∷ []) request response
    × (Client.step net job answers sent (response_received 5 response) ≡ ok (finished response))
    × Answer.Carries wire response 1 (client_payload job.payload)
client_served_example =
    client_served net wire-IsFaithful job ready ready-is_ready sendable middle (hop 8 80 ∷ [])
      ready_chain middle-ArePatient (client_payload job.payload) (echoes refl refl) (omega arith)
      refl answers 5
