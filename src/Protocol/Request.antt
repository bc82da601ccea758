-- ===== src/Protocol/Request.antt =====
-- src/protocol/src/request.rs: the request of a forward pass, as bytes and as the message in them.
pub mod RoundTrip
use inference_mesh.Base.{
  ℕ, ◌-◌, ◌≡◌, refl, Bool, true, false, if◌then◌else◌, ltb, ◌==◌, Option, none, some, List, [], ◌∷◌,
  map, length, Result, Error, ok, err, panic, ok_or, ◌>>=◌, u32_mod,
}
use inference_mesh.Protocol.Schema.{
  Bytes, Wire, TensorBuilder, RequestBuilder, RequestReader, TensorReader,
}
use inference_mesh.Protocol.Dtype
use inference_mesh.Protocol.Dtype.{Dtype}

pub record ForwardPassRequest : Type 0 where
  pub bytes : Bytes
  pub msg : Option RequestReader

-- A tensor, or the mask, that a request is built from.
pub record Payload : Type 0 where
  pub dtype : Dtype
  pub shape : List ℕ
  pub bytes : Bytes

abbrev pub ce2io {ℓ} : {A : Type ℓ} → Option A → Result A
ce2io o = ok_or o Error.capnp_error

-- `init_route`, `init_shape` and `init_data` take the length as a `u32`. Where that cuts it, the
-- first element that does not fit, or the copy, panics.
unfoldable pub init_list {ℓ} : {A : Type ℓ} → List A → Result (List A)
init_list xs = if ltb (length xs) u32_mod then ok xs else panic

unfoldable pub init_tensor : Payload → Result TensorBuilder
unfolding init_list
init_tensor t = do
  shape ← init_list t.shape
  bytes ← init_list t.bytes
  ok (record { dtype = Dtype.to_capnp t.dtype; shape = shape; bytes = bytes })

unfoldable pub init_mask : Option Payload → Result (Option TensorBuilder)
unfolding init_tensor
init_mask none = ok none
init_mask (some t) = do mask ← init_tensor t; ok (some mask)

module _ {P : Type 0} (w : Wire P) where
  unfoldable pub from_bytes : Bytes → Result ForwardPassRequest
  from_bytes bytes = do
    msg ← ce2io (w.parse_request bytes)
    ok (record { bytes = bytes; msg = msg })

  unfoldable pub build_message : List P → ℕ → ℕ → Payload → Option Payload → Result RequestBuilder
  unfolding init_list init_tensor init_mask
  build_message route hop_index request_id tensor mask = do
    route_list ← init_list (map w.to_bytes route)
    tensor_builder ← init_tensor tensor
    mask_builder ← init_mask mask
    ok (record {
      route = route_list;
      hop_index = hop_index;
      request_id = request_id;
      tensor = tensor_builder;
      mask = mask_builder;
    })

  unfoldable pub build_bytes : List P → ℕ → ℕ → Payload → Option Payload → Result Bytes
  build_bytes route hop_index request_id tensor mask = do
    message ← build_message route hop_index request_id tensor mask
    ce2io (w.write_request message)

  unfoldable pub build : List P → ℕ → ℕ → Payload → Option Payload → Result ForwardPassRequest
  unfolding build_bytes from_bytes
  build route hop_index request_id tensor mask = do
    bytes ← build_bytes route hop_index request_id tensor mask
    from_bytes bytes

unfoldable pub into_bytes : ForwardPassRequest → Bytes
into_bytes r = r.bytes

unfoldable pub root : ForwardPassRequest → Result RequestReader
root r = ce2io r.msg

module _ {P : Type 0} (w : Wire P) where
  -- The loop of `route`: the first entry that is malformed, or that is no peer, ends it.
  unfoldable pub read_peers : List (Option Bytes) → Result (List P)
  read_peers [] = ok []
  read_peers (entry ∷ entries) = do
    bytes ← ce2io entry
    peer ← ok_or (w.from_bytes bytes) Error.invalid_peer_id
    peers ← read_peers entries
    ok (peer ∷ peers)

  unfoldable pub route : ForwardPassRequest → Result (List P)
  unfolding root
  route r = do reader ← root r; list ← ce2io reader.get_route; read_peers list

unfoldable pub hop_index : ForwardPassRequest → Result ℕ
unfolding root
hop_index r = do reader ← root r; ok reader.get_hop_index

unfoldable pub request_id : ForwardPassRequest → Result ℕ
unfolding root
request_id r = do reader ← root r; ok reader.get_request_id

unfoldable pub is_terminal : {P : Type 0} → Wire P → ForwardPassRequest → Result Bool
is_terminal w r = do peers ← route w r; hop ← hop_index r; ok (hop == length peers - 1)

unfoldable pub tensor_reader : ForwardPassRequest → Result TensorReader
unfolding root
tensor_reader r = do reader ← root r; ce2io reader.get_tensor

unfoldable pub tensor_dtype : ForwardPassRequest → Result Dtype
unfolding tensor_reader
tensor_dtype r = do tensor ← tensor_reader r; Dtype.from_capnp_res tensor.get_dtype

unfoldable pub tensor_shape : ForwardPassRequest → Result (List ℕ)
unfolding tensor_reader
tensor_shape r = do tensor ← tensor_reader r; ce2io tensor.get_shape

unfoldable pub tensor_data : ForwardPassRequest → Result Bytes
unfolding tensor_reader
tensor_data r = do tensor ← tensor_reader r; ce2io tensor.get_data

unfoldable pub read_payload : TensorReader → Result Payload
read_payload mask = do
  dtype ← Dtype.from_capnp_res mask.get_dtype
  shape ← ce2io mask.get_shape
  bytes ← ce2io mask.get_data
  ok (record { dtype = dtype; shape = shape; bytes = bytes })

unfoldable pub mask_payload : RequestReader → Result (Option Payload)
unfolding read_payload
mask_payload reader = do
  mask ← ce2io reader.get_mask
  payload ← read_payload mask
  ok (some payload)

unfoldable pub mask_data : ForwardPassRequest → Result (Option Payload)
unfolding root mask_payload
mask_data r = do reader ← root r; if reader.has_mask then mask_payload reader else ok none
