-- ===== src/Tests/Flat.antt =====
-- A worker with a model of two layers, and a payload of `run_client` of three numbers.
use inference_mesh.Base.{◌≡◌, refl, none, [], ◌∷◌, ok, arith}
use inference_mesh.Protocol.Request.{ForwardPassRequest}
use inference_mesh.Protocol.Request.RoundTrip.{IsSendable, build-Carries}
use inference_mesh.Protocol.Response.{ForwardPassResponse}
use inference_mesh.Protocol.Response.RoundTrip as Answer
use inference_mesh.P2p.Net.{inbound_request, send_response}
use inference_mesh.P2p.Client.{client_payload}
use inference_mesh.P2p.Dht.{codes}
use inference_mesh.P2p.Worker
use inference_mesh.P2p.Worker.{empty_payload, step}
use inference_mesh.Cli.Flat.{step-client_payload}
use inference_mesh.Tests.Toy.{net, wire, wire-IsFaithful, answers}
use inference_mesh.Tests.Messages.{peers}
use inference_mesh.Tests.Shapes.{zeros_of, shapes, holds_f32, shapes-HasLayout}
use inference_mesh.Tests.Replies.{file, settings, read_addr, starts}

flat-IsSendable : IsSendable wire peers 2 42 (client_payload (zeros_of 12)) none
flat-IsSendable = record {
  small_route = omega arith;
  small_tensor = omega arith;
  small_mask = tt;
  fits = refl;
}

abbrev request : ForwardPassRequest
request =
    (build-Carries wire wire-IsFaithful peers 2 42 (client_payload (zeros_of 12)) none
      flat-IsSendable).0

step-client_payload_example :
    (response : ForwardPassResponse) × (step net settings answers
        (Worker.init net)
        (inbound_request 3 request 77)
      ≡ ok (Worker.init net, send_response 77 response ∷ []))
    × Answer.Carries wire response 42 empty_payload
step-client_payload_example =
    step-client_payload shapes holds_f32 net file (codes "model") wire-IsFaithful shapes-HasLayout
      read_addr 11 (codes "a") (codes "3-4") (5 ∷ []) settings starts (omega arith) answers
      (Worker.init net) 3 77 request (zeros_of 12) 3 refl
      (build-Carries wire wire-IsFaithful peers 2 42 (client_payload (zeros_of 12)) none
        flat-IsSendable).2
      refl refl
