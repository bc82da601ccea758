-- ===== src/Tests/Messages.antt =====
-- Messages, their framing, and their way along a route.
use inference_mesh.Base.{ℕ, ◌≡◌, refl, false, none, some, List, [], ◌∷◌, ◌++◌, ok, arith}
use inference_mesh.Protocol.Schema.{CapnpDtype}
use inference_mesh.Protocol.Dtype.{f32, f16}
use inference_mesh.Protocol.Request
use inference_mesh.Protocol.Request.{ForwardPassRequest, Payload}
use inference_mesh.Protocol.Request.RoundTrip.{Carries, IsSendable, build-Carries}
use inference_mesh.Protocol.Response
use inference_mesh.Protocol.Response.{ForwardPassResponse}
use inference_mesh.Protocol.Response.RoundTrip.{build_response-Carries}
use inference_mesh.Protocol.Response.RoundTrip as Answer
use inference_mesh.Protocol.Codec.Framing.{
  read_requests, write_requests, read_requests-write_requests,
}
use inference_mesh.P2p.Routing.Relay.{Relay, Relay-route}
use inference_mesh.P2p.Dht.{layer_key, codes}
use inference_mesh.Tests.Toy.{wire, wire-IsFaithful, get_request}

abbrev pub tensor : Payload
tensor = record { dtype = f32; shape = 1 ∷ 2 ∷ []; bytes = 1 ∷ 2 ∷ 3 ∷ 4 ∷ 5 ∷ 6 ∷ 7 ∷ 8 ∷ [] }

abbrev pub mask : Payload
mask = record { dtype = f16; shape = 1 ∷ []; bytes = 9 ∷ 9 ∷ [] }

abbrev pub peers : List ℕ
peers = 11 ∷ 12 ∷ 13 ∷ []

pub sendable : (hop : ℕ) → IsSendable wire peers hop 42 tensor (some mask)
sendable hop = record {
  small_route = omega arith;
  small_tensor = omega arith;
  small_mask = omega arith;
  fits = refl;
}

build-Carries_example :
    (r : ForwardPassRequest) × (Request.build wire peers 0 42 tensor (some mask) ≡ ok r)
    × Carries wire r peers 0 42 tensor (some mask)
build-Carries_example =
    build-Carries wire wire-IsFaithful peers 0 42 tensor (some mask) (sendable 0)

abbrev pub first_request : ForwardPassRequest
first_request = (build-Carries wire wire-IsFaithful peers 0 42 tensor (some mask) (sendable 0)).0

pub first_request-Carries : Carries wire first_request peers 0 42 tensor (some mask)
first_request-Carries =
    (build-Carries wire wire-IsFaithful peers 0 42 tensor (some mask) (sendable 0)).2

Relay-route_example :
    (last : ForwardPassRequest) × Relay wire first_request (12 ∷ 13 ∷ []) last
    × Carries wire last peers 2 42 tensor (some mask)
Relay-route_example =
    Relay-route wire wire-IsFaithful (λ hop h. sendable hop) first_request first_request-Carries
      (omega arith)

build_response-Carries_example :
    (r : ForwardPassResponse) × (Response.build wire 42 tensor ≡ ok r)
    × Answer.Carries wire r 42 tensor
build_response-Carries_example =
    build_response-Carries wire wire-IsFaithful 42 tensor (omega arith) refl

-- A request with the route `11` and no data, as it stands on the wire.
abbrev pub small_bytes : List ℕ
small_bytes = 1 ∷ 0 ∷ 7 ∷ 1 ∷ 11 ∷ 2 ∷ 0 ∷ 0 ∷ []

abbrev pub small_request : ForwardPassRequest
small_request = record {
  bytes = small_bytes;
  msg = some (record {
    get_route = some (some (11 ∷ []) ∷ []);
    get_hop_index = 0;
    get_request_id = 7;
    get_tensor =
        some (record { get_dtype = some CapnpDtype.f32; get_shape = some []; get_data = some [] });
    has_mask = false;
    get_mask =
        some (record { get_dtype = some CapnpDtype.f16; get_shape = some []; get_data = some [] });
  });
}

small_request_read : Request.from_bytes wire small_bytes ≡ ok small_request
unfolding Request.from_bytes get_request
small_request_read = refl

read_requests-write_requests_example :
    read_requests wire 2 (write_requests wire [] (small_request ∷ small_request ∷ []) ++ (99 ∷ []))
    ≡ ok (small_request ∷ small_request ∷ [], 99 ∷ [])
read_requests-write_requests_example =
    read_requests-write_requests wire (small_request ∷ small_request ∷ []) (99 ∷ [])
      ((small_request_read, omega arith), ((small_request_read, omega arith), tt))

abbrev small_response : ForwardPassResponse
small_response = record { bytes = 7 ∷ 2 ∷ 0 ∷ 0 ∷ []; msg = none }

layer_key_text : layer_key 7 ≡ codes "layer_007"
unfolding layer_key
layer_key_text = refl
