-- ===== src/Tests/Workers.antt =====
-- The worker at concrete events.
use inference_mesh.Base.{
  ℕ, ◌+◌, ◌≤◌, ◌≡◌, refl, false, Option, none, some, List, [], ◌∷◌, get_elem?, ℕ_discrete, Error,
  ok, err, panic, arith,
}
use inference_mesh.Base.HashMap
use inference_mesh.Protocol.Schema.{CapnpDtype, RequestReader, TensorReader}
use inference_mesh.Protocol.Request
use inference_mesh.Protocol.Request.{ForwardPassRequest}
use inference_mesh.Protocol.Request.RoundTrip.{Carries, build-Carries}
use inference_mesh.Protocol.Response.{ForwardPassResponse}
use inference_mesh.Protocol.Response.RoundTrip as Answer
use inference_mesh.P2p.Net.{
  Answers, SwarmEvent, Engine, inbound_request, response_received, outbound_failure, send_request,
  send_response, new_listen_addr, add_address,
}
use inference_mesh.P2p.Worker.{WorkerState, Settings, init, step, run, output_bytes, empty_payload}
use inference_mesh.P2p.Worker.Counts.{answered, waiting, received}
use inference_mesh.P2p.Worker.Channels.{run_answers_at_most_once}
use inference_mesh.P2p.Worker.Replies.{
  step_compute, step_forward, step_past_end, step_unknown_dtype, step_outbound_failure,
}
use inference_mesh.Protocol.Dtype.{from_capnp_res, from_capnp, to_capnp}
use inference_mesh.Protocol.Response
use inference_mesh.Tests.Toy.{
  get_response, put_response, peer_of, net, wire, wire-IsFaithful, answers,
}
use inference_mesh.Tests.Messages.{
  tensor, mask, peers, sendable, first_request, first_request-Carries, small_request,
}

abbrev settings : Option Engine → Settings net
settings engine = record { local_peer_id = 11; start_layer = 1; end_layer = 2; engine = engine }

abbrev doubling : Engine
doubling start end bytes dtype shape = ok (7 ∷ 8 ∷ [])

abbrev failing : Engine
failing start end bytes dtype shape = err Error.tensor_error

abbrev idle : WorkerState net
idle = record {
  bootstrapped = false;
  bootstrap_triggered = false;
  layers_announced = false;
  listen_addr = none;
  pending_forwards = [];
}

abbrev forwarding : WorkerState net
forwarding = record idle { pending_forwards = (5, 77) ∷ [] }

abbrev last_request : ForwardPassRequest
last_request = (build-Carries wire wire-IsFaithful peers 2 42 tensor (some mask) (sendable 2)).0

last_request-Carries : Carries wire last_request peers 2 42 tensor (some mask)
last_request-Carries =
    (build-Carries wire wire-IsFaithful peers 2 42 tensor (some mask) (sendable 2)).2

abbrev stray_request : ForwardPassRequest
stray_request = (build-Carries wire wire-IsFaithful peers 3 42 tensor (some mask) (sendable 3)).0

stray_request-Carries : Carries wire stray_request peers 3 42 tensor (some mask)
stray_request-Carries =
    (build-Carries wire wire-IsFaithful peers 3 42 tensor (some mask) (sendable 3)).2

abbrev echoed : ForwardPassResponse
echoed = record {
  bytes = 7 ∷ 2 ∷ 0 ∷ 0 ∷ [];
  msg = some (record {
    get_request_id = 7;
    get_tensor =
        some (record { get_dtype = some CapnpDtype.f32; get_shape = some []; get_data = some [] });
  });
}

abbrev events : List (Answers net × SwarmEvent net)
events =
    (answers, new_listen_addr 9)
    ∷ (answers, inbound_request 3 small_request 77)
    ∷ (answers, response_received 5 echoed)
    ∷ []

abbrev listening : WorkerState net
listening = record idle { listen_addr = some 9 }

events-run :
    run net (settings none) (init net) events
    ≡ ok (listening, add_address 11 9 ∷ send_response 77 echoed ∷ [])
unfolding run init step Request.request_id Request.is_terminal Request.route Request.read_peers
    Request.hop_index Request.tensor_data Request.tensor_dtype Request.tensor_shape Response.build
    Response.from_bytes peer_of from_capnp_res from_capnp to_capnp get_response put_response
    HashMap.get
events-run = refl

run_answers_at_most_once_example :
    answered net ℕ_discrete 77 (add_address 11 9 ∷ send_response 77 echoed ∷ [])
      + waiting net ℕ_discrete 77 []
    ≤ received net ℕ_discrete 77 events
run_answers_at_most_once_example =
    run_answers_at_most_once net ℕ_discrete 77 (settings none) listening events
      (add_address 11 9 ∷ send_response 77 echoed ∷ []) events-run

step_compute_example :
    (response : ForwardPassResponse) × (step net
        (settings (some doubling))
        answers
        idle
        (inbound_request 3 last_request 77)
      ≡ ok (idle, send_response 77 response ∷ []))
    × Answer.Carries wire response 42 (record tensor { bytes = output_bytes (7 ∷ 8 ∷ []) })
unfolding output_bytes
step_compute_example =
    step_compute net (settings (some doubling)) answers idle 3 77 last_request last_request-Carries
      wire-IsFaithful doubling (7 ∷ 8 ∷ []) refl refl refl (omega arith) refl

step_forward_example :
    (next_peer : ℕ) × (next : ForwardPassRequest) × (step net
        (settings none)
        answers
        idle
        (inbound_request 3 first_request 77)
      ≡ ok (forwarding, send_request next_peer next ∷ []))
    × (get_elem? peers 1 ≡ some next_peer)
    × Carries wire next peers 1 42 tensor (some mask)
unfolding HashMap.insert
step_forward_example =
    step_forward net (settings none) answers idle 3 77 first_request first_request-Carries
      wire-IsFaithful (omega arith) (sendable 1)

step_past_end_example :
    step net (settings none) answers idle (inbound_request 3 stray_request 77) ≡ panic
step_past_end_example =
    step_past_end net (settings none) answers idle 3 77 stray_request stray_request-Carries
      (omega arith) (omega arith) (omega arith)

abbrev odd_tensor : TensorReader
odd_tensor = record { get_dtype = none; get_shape = some []; get_data = some [] }

-- A message on the route `11` whose element type is not in the schema.
abbrev odd_reader : RequestReader
odd_reader = record {
  get_route = some (some (11 ∷ []) ∷ []);
  get_hop_index = 0;
  get_request_id = 7;
  get_tensor = some odd_tensor;
  has_mask = false;
  get_mask = none;
}

step_unknown_dtype_example :
    step net
      (settings (some doubling))
      answers
      idle
      (inbound_request 3 (record { bytes = []; msg = some odd_reader }) 77)
    ≡ err Error.unknown_dtype
step_unknown_dtype_example =
    step_unknown_dtype net (settings (some doubling)) answers idle wire-IsFaithful 3 77 []
      odd_reader odd_tensor (11 ∷ []) [] refl refl refl refl refl

abbrev some_response : ForwardPassResponse
some_response = record { bytes = 7 ∷ []; msg = none }

step_outbound_failure_example :
    (response : ForwardPassResponse) × (step net
        (settings none)
        answers
        forwarding
        (outbound_failure 5 12)
      ≡ ok (idle, send_response 77 response ∷ []))
    × Answer.Carries wire response 0 empty_payload
unfolding HashMap.get HashMap.remove ℕ_discrete
step_outbound_failure_example =
    step_outbound_failure net (settings none) answers forwarding wire-IsFaithful 5 12 77 refl refl
