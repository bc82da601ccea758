-- ===== src/Protocol/Response/RoundTrip.antt =====
-- A response that is built is read back as it was given (src/protocol/src/response.rs).
use inference_mesh.Base.{ℕ, ◌≡◌, refl, true, some, ok}
use inference_mesh.Protocol.Schema.{Wire, IsFaithful, ResponseBuilder, read_response}
use inference_mesh.Protocol.Dtype
use inference_mesh.Protocol.Request.{Payload}
use inference_mesh.Protocol.Request.RoundTrip.{IsSmall, tensor_message, init_tensor_lem}
use inference_mesh.Protocol.Response.{
  ForwardPassResponse, build, from_bytes, request_id, tensor_dtype, tensor_shape, tensor_data,
}

abbrev pub message : ℕ → Payload → ResponseBuilder
message rid t = record { request_id = rid; tensor = tensor_message t }

module _ {P : Type 0} (w : Wire P) where
  pub record Carries (r : ForwardPassResponse) (rid : ℕ) (t : Payload) : Type 0 where
    pub has_id : request_id r ≡ ok rid
    pub has_dtype : tensor_dtype r ≡ ok t.dtype
    pub has_shape : tensor_shape r ≡ ok t.shape
    pub has_data : tensor_data r ≡ ok t.bytes
    pub readable : from_bytes w r.bytes ≡ ok r

  -- With faithful libraries and sizes within the limits, the response is built, and every accessor
  -- returns what it was built from.
  pub build_response-Carries :
      IsFaithful w
      → (rid : ℕ) (t : Payload) → IsSmall t
      → w.response_fits (message rid t) ≡ true
      → (r : ForwardPassResponse) × (build w rid t ≡ ok r) × Carries r rid t
  unfolding build request_id tensor_dtype tensor_shape tensor_data
  build_response-Carries f rid t small fits =
      let (bs, written, parsed) = f.response (message rid t) fits in
      (
        record { bytes = bs; msg = some (read_response (message rid t)) },
        rw (init_tensor_lem t small, written, parsed) refl,
        record {
          has_id = refl;
          has_dtype = Dtype.from_capnp_res-to_capnp t.dtype;
          has_shape = refl;
          has_data = refl;
          readable = rw parsed refl;
        },
      )
