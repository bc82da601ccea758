-- ===== src/Protocol/Codec/Framing.antt =====
-- Messages survive the stream, and a stream that ends early is refused (src/protocol/src/codec.rs).
use inference_mesh.Base.{
  ℕ, zero, suc, ◌+◌, ◌<◌, ◌%◌, ◌≡◌, refl, List, [], ◌∷◌, ◌++◌, append_assoc, length, length-append,
  ap, ◌∙◌, sym, append-nil, All, take, drop, Result, Error, ok, err, ◌>>=◌, arith, u32_mod,
}
use native.Mathlib.Nat.{mod-eq_of_lt}
use inference_mesh.Protocol.Schema.{Bytes, Wire}
use inference_mesh.Protocol.Request
use inference_mesh.Protocol.Request.{ForwardPassRequest}
use inference_mesh.Protocol.Response.{ForwardPassResponse}
use inference_mesh.Protocol.Codec.{
  read_exact, from_be_bytes, to_be_bytes, read_frame, write_frame, read_request, read_response,
  write_request, write_response,
}

read_exact-append : (xs rest : Bytes) → read_exact (length xs) (xs ++ rest) ≡ ok (xs, rest)
unfolding read_exact
read_exact-append [] rest = refl
read_exact-append (x ∷ xs) rest = rw (read_exact-append xs rest)

read_exact_short : (n : ℕ) (io : Bytes) → length io < n → read_exact n io ≡ err Error.unexpected_eof
unfolding read_exact
read_exact_short zero io h = elim h [ ]
read_exact_short (suc n) [] h = refl
read_exact_short (suc n) (b ∷ io) h = rw (read_exact_short n io (omega arith))

from_be_bytes-to_be_bytes : (n : ℕ) → n < u32_mod → from_be_bytes (to_be_bytes n) ≡ n
unfolding from_be_bytes to_be_bytes
from_be_bytes-to_be_bytes n h = omega arith

read_header :
    (n : ℕ) (rest : Bytes) → read_exact 4 (to_be_bytes n ++ rest) ≡ ok (to_be_bytes n, rest)
unfolding to_be_bytes read_exact
read_header n rest = refl

read_frame_body :
    (n : ℕ) (body : Bytes) → n < u32_mod → read_frame (to_be_bytes n ++ body) ≡ read_exact n body
unfolding read_frame
read_frame_body n body h = rw (read_header n body, from_be_bytes-to_be_bytes n h) refl

frame_of :
    (bs rest : Bytes) → length bs < u32_mod → read_frame (write_frame [] bs ++ rest) ≡ ok (bs, rest)
unfolding write_frame
frame_of bs rest h =
    rw
      (
        mod-eq_of_lt h,
        append_assoc (to_be_bytes (length bs)) bs rest,
        read_frame_body (length bs) (bs ++ rest) h,
      )
      (read_exact-append bs rest)

-- A stream that ends within a frame.
frame_cut :
    (io lost bs : Bytes)
    → io ++ lost ≡ write_frame [] bs
    → 0 < length lost
    → length bs < u32_mod
    → read_frame io ≡ err Error.unexpected_eof
unfolding read_frame write_frame read_exact to_be_bytes
frame_cut [] lost bs e h small = rw (read_exact_short 4 [] (omega arith)) refl
frame_cut (a ∷ []) lost bs e h small = rw (read_exact_short 4 (a ∷ []) (omega arith)) refl
frame_cut (a ∷ b ∷ []) lost bs e h small = rw (read_exact_short 4 (a ∷ b ∷ []) (omega arith)) refl
frame_cut (a ∷ b ∷ c ∷ []) lost bs e h small =
    rw (read_exact_short 4 (a ∷ b ∷ c ∷ []) (omega arith)) refl
frame_cut (a ∷ b ∷ c ∷ d ∷ body) lost bs e h small =
    let header : a ∷ b ∷ c ∷ d ∷ [] ≡ to_be_bytes (length bs % u32_mod) = ap (take 4) e in
    let split : body ++ lost ≡ bs = ap (drop 4) e in
    let size : length body + length lost ≡ length bs =
      sym (length-append body lost) ∙ ap length split in
    let value : from_be_bytes (a ∷ b ∷ c ∷ d ∷ []) ≡ length bs =
      ap from_be_bytes header
      ∙ rw (mod-eq_of_lt small) (from_be_bytes-to_be_bytes (length bs) small) in
    ap (λ n. read_exact n body) value ∙ read_exact_short (length bs) body (omega (arith, size))

module _ {P : Type 0} (w : Wire P) where
  abbrev IsFramed : ForwardPassRequest → Type 0
  IsFramed r = (Request.from_bytes w r.bytes ≡ ok r) × (length r.bytes < u32_mod)

  -- The requests that stand on a stream one after the other.
  pub read_requests : ℕ → Bytes → Result (List ForwardPassRequest × Bytes)
  read_requests zero io = ok ([], io)
  read_requests (suc n) io = do
    (r, rest) ← read_request w io
    (rs, left) ← read_requests n rest
    ok (r ∷ rs, left)

  pub write_requests : Bytes → List ForwardPassRequest → Bytes
  write_requests io [] = io
  write_requests io (r ∷ rs) = write_requests (write_request io r) rs

  write_request-append :
      (io : Bytes) (r : ForwardPassRequest) → write_request io r ≡ io ++ write_request [] r
  unfolding write_request write_frame
  write_request-append io r = refl

  write_requests-append :
      (io : Bytes) (rs : List ForwardPassRequest)
      → write_requests io rs ≡ io ++ write_requests [] rs
  unfolding write_requests
  write_requests-append io [] = sym (append-nil io)
  write_requests-append io (r ∷ rs) =
      write_requests-append (write_request io r) rs
      ∙ rw (write_request-append io r, append_assoc io (write_request [] r) (write_requests [] rs))
          (ap (◌++◌ io) (sym (write_requests-append (write_request [] r) rs)))

  read_request-write_request :
      (r : ForwardPassRequest) (rest : Bytes)
      → IsFramed r
      → read_request w (write_request [] r ++ rest) ≡ ok (r, rest)
  unfolding read_request write_request
  read_request-write_request r rest (known, small) = rw (frame_of r.bytes rest small, known) refl

  -- Requests that were received or built, each shorter than 2 ^ 32 bytes, are written one after
  -- the other and read back in order, and what follows them on the stream is left.
  pub read_requests-write_requests :
      (rs : List ForwardPassRequest) (rest : Bytes)
      → All IsFramed rs
      → read_requests (length rs) (write_requests [] rs ++ rest) ≡ ok (rs, rest)
  unfolding read_requests write_requests
  read_requests-write_requests [] rest h = refl
  read_requests-write_requests (r ∷ rs) rest (framed, h) =
      rw
        (
          write_requests-append (write_request [] r) rs,
          append_assoc (write_request [] r) (write_requests [] rs) rest,
          read_request-write_request r (write_requests [] rs ++ rest) framed,
          read_requests-write_requests rs rest h,
        )
        refl

  -- Where the stream ends within a request shorter than 2 ^ 32 bytes, so that some of the frame is
  -- lost, reading it fails with `UnexpectedEof`.
  pub read_request_cut :
      (io lost : Bytes) (r : ForwardPassRequest)
      → 0 < length lost
      → io ++ lost ≡ write_request [] r
      → length r.bytes < u32_mod
      → read_request w io ≡ err Error.unexpected_eof
  unfolding read_request write_request
  read_request_cut io lost r h e small = rw (frame_cut io lost r.bytes e h small) refl

  -- The same of a response.
  pub read_response_cut :
      (io lost : Bytes) (s : ForwardPassResponse)
      → 0 < length lost
      → io ++ lost ≡ write_response [] s
      → length s.bytes < u32_mod
      → read_response w io ≡ err Error.unexpected_eof
  unfolding read_response write_response
  read_response_cut io lost s h e small = rw (frame_cut io lost s.bytes e h small) refl
