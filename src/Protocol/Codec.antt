-- ===== src/Protocol/Codec.antt =====
-- src/protocol/src/codec.rs: a message on a stream is its length, in four bytes with the highest
-- first, and its bytes. A reader takes bytes off the stream and returns what is left of it; a
-- writer appends to it. Errors of the transport itself are not modelled.
pub mod Framing
use inference_mesh.Base.{
  ℕ, zero, suc, ◌+◌, ◌*◌, ◌/◌, ◌%◌, ◌^◌, Option, none, some, List, [], ◌∷◌, ◌++◌, length, Result,
  Error, ok, err, panic, ◌>>=◌, ok_or, u32_mod,
}
use inference_mesh.Protocol.Schema.{Bytes, Wire}
use inference_mesh.Protocol.Request
use inference_mesh.Protocol.Request.{ForwardPassRequest}
use inference_mesh.Protocol.Response
use inference_mesh.Protocol.Response.{ForwardPassResponse}

-- `AsyncReadExt::read_exact` into a buffer of the given size.
unfoldable pub read_exact : ℕ → Bytes → Result (Bytes × Bytes)
read_exact zero io = ok ([], io)
read_exact (suc n) [] = err Error.unexpected_eof
read_exact (suc n) (b ∷ io) = do (bytes, rest) ← read_exact n io; ok (b ∷ bytes, rest)

-- `u32::from_be_bytes` and `u32::to_be_bytes`.
unfoldable pub from_be_bytes : Bytes → ℕ
from_be_bytes (a ∷ b ∷ c ∷ d ∷ []) = a * 2 ^ 24 + b * 2 ^ 16 + c * 2 ^ 8 + d
from_be_bytes _ = 0

unfoldable pub to_be_bytes : ℕ → Bytes
to_be_bytes n = n / 2 ^ 24 % 256 ∷ n / 2 ^ 16 % 256 ∷ n / 2 ^ 8 % 256 ∷ n % 256 ∷ []

-- The reads that both kinds of message begin with.
unfoldable pub read_frame : Bytes → Result (Bytes × Bytes)
unfolding from_be_bytes
read_frame io = do
  (len_buf, body) ← read_exact 4 io
  let len = from_be_bytes len_buf
  read_exact len body

unfoldable pub write_frame : Bytes → Bytes → Bytes
unfolding to_be_bytes
write_frame io message = io ++ (to_be_bytes (length message % u32_mod) ++ message)

module _ {P : Type 0} (w : Wire P) where
  unfoldable pub read_request : Bytes → Result (ForwardPassRequest × Bytes)
  read_request io = do
    (buf, rest) ← read_frame io
    request ← Request.from_bytes w buf
    ok (request, rest)

  unfoldable pub read_response : Bytes → Result (ForwardPassResponse × Bytes)
  read_response io = do
    (buf, rest) ← read_frame io
    response ← Response.from_bytes w buf
    ok (response, rest)

unfoldable pub write_request : Bytes → ForwardPassRequest → Bytes
unfolding Request.into_bytes write_frame
write_request io req = write_frame io (Request.into_bytes req)

unfoldable pub write_response : Bytes → ForwardPassResponse → Bytes
unfolding Response.into_bytes write_frame
write_response io res = write_frame io (Response.into_bytes res)
