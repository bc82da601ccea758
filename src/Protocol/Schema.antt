-- ===== src/Protocol/Schema.antt =====
-- The messages of src/protocol/schema/inference.capnp, as the code that capnp generates from the
-- schema builds and reads them, and the libraries that the protocol calls: capnp's packed
-- serialisation and libp2p's peer identities. These are parameters of the development.
use inference_mesh.Base.{ℕ, ◌≡◌, Bool, true, false, Option, none, some, List, [], map}

pub data CapnpDtype : Type 0 where
  f16 bf16 f32 : CapnpDtype

abbrev pub Bytes : Type 0
Bytes = List ℕ

pub record TensorBuilder : Type 0 where
  pub dtype : CapnpDtype
  pub shape : List ℕ
  pub bytes : Bytes

pub record RequestBuilder : Type 0 where
  pub route : List Bytes
  pub hop_index : ℕ
  pub request_id : ℕ
  pub tensor : TensorBuilder
  pub mask : Option TensorBuilder

pub record ResponseBuilder : Type 0 where
  pub request_id : ℕ
  pub tensor : TensorBuilder

-- A reader checks a pointer when it follows it: `none` is a `capnp::Error`, and in `get_dtype` a
-- value that is not in the schema.
pub record TensorReader : Type 0 where
  pub get_dtype : Option CapnpDtype
  pub get_shape : Option (List ℕ)
  pub get_data : Option Bytes

pub record RequestReader : Type 0 where
  pub get_route : Option (List (Option Bytes))
  pub get_hop_index : ℕ
  pub get_request_id : ℕ
  pub get_tensor : Option TensorReader
  pub has_mask : Bool
  pub get_mask : Option TensorReader

pub record ResponseReader : Type 0 where
  pub get_request_id : ℕ
  pub get_tensor : Option TensorReader

-- What is read from a message as it was built.
abbrev pub read_tensor : TensorBuilder → TensorReader
read_tensor t = record {
  get_dtype = some t.dtype;
  get_shape = some t.shape;
  get_data = some t.bytes;
}

abbrev pub is_set : Option TensorBuilder → Bool
is_set none = false
is_set (some t) = true

-- A mask that was not set reads as the default tensor of the schema.
abbrev pub read_mask : Option TensorBuilder → TensorReader
read_mask none = record { get_dtype = some CapnpDtype.f16; get_shape = some []; get_data = some [] }
read_mask (some t) = read_tensor t

abbrev pub read_request : RequestBuilder → RequestReader
read_request b = record {
  get_route = some (map some b.route);
  get_hop_index = b.hop_index;
  get_request_id = b.request_id;
  get_tensor = some (read_tensor b.tensor);
  has_mask = is_set b.mask;
  get_mask = some (read_mask b.mask);
}

abbrev pub read_response : ResponseBuilder → ResponseReader
read_response b = record { get_request_id = b.request_id; get_tensor = some (read_tensor b.tensor) }

-- The libraries. A message that was read has a root that may still be malformed, so that it is an
-- `Option` itself. `request_fits` and `response_fits` are capnp's limits on the size of a message.
pub record Wire (P : Type 0) : Type 0 where
  pub same : Discrete P
  pub to_bytes : P → Bytes
  pub from_bytes : Bytes → Option P
  pub write_request : RequestBuilder → Option Bytes
  pub parse_request : Bytes → Option (Option RequestReader)
  pub request_fits : RequestBuilder → Bool
  pub write_response : ResponseBuilder → Option Bytes
  pub parse_response : Bytes → Option (Option ResponseReader)
  pub response_fits : ResponseBuilder → Bool

-- What the libraries document: an identity survives its encoding, a message within the limits can
-- be written, and what was written is read back.
pub record IsFaithful {P : Type 0} (w : Wire P) : Type 0 where
  pub peer : (p : P) → w.from_bytes (w.to_bytes p) ≡ some p
  pub request :
      (b : RequestBuilder)
      → w.request_fits b ≡ true
      → (bs : Bytes) × (w.write_request b ≡ some bs)
        × (w.parse_request bs ≡ some (some (read_request b)))
  pub response :
      (b : ResponseBuilder)
      → w.response_fits b ≡ true
      → (bs : Bytes) × (w.write_response b ≡ some bs)
        × (w.parse_response bs ≡ some (some (read_response b)))
