-- ===== src/Protocol/Response.antt =====
-- src/protocol/src/response.rs: the response to a forward pass. A tensor is written by the same
-- code as in a request, and a message is opened by the same `ce2io`.
pub mod RoundTrip
use inference_mesh.Base.{ℕ, Option, List, Result, ok, ◌>>=◌}
use inference_mesh.Protocol.Schema.{Bytes, Wire, ResponseBuilder, ResponseReader, TensorReader}
use inference_mesh.Protocol.Dtype
use inference_mesh.Protocol.Dtype.{Dtype}
use inference_mesh.Protocol.Request.{Payload, ce2io, init_tensor}

pub record ForwardPassResponse : Type 0 where
  pub bytes : Bytes
  pub msg : Option ResponseReader

module _ {P : Type 0} (w : Wire P) where
  unfoldable pub from_bytes : Bytes → Result ForwardPassResponse
  from_bytes bytes = do
    msg ← ce2io (w.parse_response bytes)
    ok (record { bytes = bytes; msg = msg })

  unfoldable pub build : ℕ → Payload → Result ForwardPassResponse
  unfolding init_tensor from_bytes
  build request_id tensor = do
    tensor_builder ← init_tensor tensor
    bytes ← ce2io (w.write_response (record { request_id = request_id; tensor = tensor_builder }))
    from_bytes bytes

unfoldable pub into_bytes : ForwardPassResponse → Bytes
into_bytes r = r.bytes

unfoldable pub root : ForwardPassResponse → Result ResponseReader
root r = ce2io r.msg

unfoldable pub request_id : ForwardPassResponse → Result ℕ
unfolding root
request_id r = do reader ← root r; ok reader.get_request_id

unfoldable pub tensor_reader : ForwardPassResponse → Result TensorReader
unfolding root
tensor_reader r = do reader ← root r; ce2io reader.get_tensor

unfoldable pub tensor_dtype : ForwardPassResponse → Result Dtype
unfolding tensor_reader
tensor_dtype r = do tensor ← tensor_reader r; Dtype.from_capnp_res tensor.get_dtype

unfoldable pub tensor_shape : ForwardPassResponse → Result (List ℕ)
unfolding tensor_reader
tensor_shape r = do tensor ← tensor_reader r; ce2io tensor.get_shape

unfoldable pub tensor_data : ForwardPassResponse → Result Bytes
unfolding tensor_reader
tensor_data r = do tensor ← tensor_reader r; ce2io tensor.get_data
