-- ===== src/Tests/Toy.antt =====
-- Libraries that the parameters can stand for: a peer is a number, and a message is written as the
-- list of its fields, each list behind its length.
use inference_mesh.Base.{
  ℕ, zero, suc, ◌≡◌, refl, true, Option, none, some, List, [], ◌∷◌, ◌++◌, length, ℕ_discrete,
}
use inference_mesh.Protocol.Schema.{
  CapnpDtype, Bytes, TensorBuilder, RequestBuilder, ResponseBuilder, RequestReader, ResponseReader,
  Wire, IsFaithful, read_request, read_response,
}
use inference_mesh.P2p.Net.{Net, Answers}

infixl 5 ◌>>=◌
abbrev ◌>>=◌ {ℓ κ} : {A : Type ℓ} {B : Type κ} → Option A → (A → Option B) → Option B
none >>= f = none
some a >>= f = f a

split : ℕ → Bytes → Option (Bytes × Bytes)
split zero s = some ([], s)
split (suc n) [] = none
split (suc n) (b ∷ s) = do (bs, rest) ← split n s; some (b ∷ bs, rest)

put_bytes : Bytes → Bytes → Bytes
put_bytes bs rest = length bs ∷ (bs ++ rest)

get_bytes : Bytes → Option (Bytes × Bytes)
get_bytes [] = none
get_bytes (n ∷ s) = split n s

split-append : (bs rest : Bytes) → split (length bs) (bs ++ rest) ≡ some (bs, rest)
unfolding split
split-append [] rest = refl
split-append (b ∷ bs) rest = rw (split-append bs rest)

get-put_bytes : (bs rest : Bytes) → get_bytes (put_bytes bs rest) ≡ some (bs, rest)
unfolding get_bytes put_bytes
get-put_bytes bs rest = split-append bs rest

put_items : List Bytes → Bytes → Bytes
put_items [] rest = rest
put_items (x ∷ xs) rest = put_bytes x (put_items xs rest)

get_items : ℕ → Bytes → Option (List Bytes × Bytes)
get_items zero s = some ([], s)
get_items (suc n) s = do (x, s1) ← get_bytes s; (xs, rest) ← get_items n s1; some (x ∷ xs, rest)

get-put_items :
    (xs : List Bytes) (rest : Bytes) → get_items (length xs) (put_items xs rest) ≡ some (xs, rest)
unfolding get_items put_items
get-put_items [] rest = refl
get-put_items (x ∷ xs) rest = rw (get-put_bytes x (put_items xs rest), get-put_items xs rest) refl

dtype_code : CapnpDtype → ℕ
dtype_code CapnpDtype.f16 = 0
dtype_code CapnpDtype.bf16 = 1
dtype_code CapnpDtype.f32 = 2

code_dtype : ℕ → CapnpDtype
code_dtype zero = CapnpDtype.f16
code_dtype (suc zero) = CapnpDtype.bf16
code_dtype (suc (suc n)) = CapnpDtype.f32

put_tensor : TensorBuilder → Bytes → Bytes
put_tensor t rest = dtype_code t.dtype ∷ put_bytes t.shape (put_bytes t.bytes rest)

get_tensor : Bytes → Option (TensorBuilder × Bytes)
get_tensor [] = none
get_tensor (d ∷ s) = do
  (shape, s1) ← get_bytes s
  (bytes, rest) ← get_bytes s1
  some (record { dtype = code_dtype d; shape = shape; bytes = bytes }, rest)

dtype_code_lem : (d : CapnpDtype) → code_dtype (dtype_code d) ≡ d
unfolding code_dtype dtype_code
dtype_code_lem CapnpDtype.f16 = refl
dtype_code_lem CapnpDtype.bf16 = refl
dtype_code_lem CapnpDtype.f32 = refl

get-put_tensor :
    (t : TensorBuilder) (rest : Bytes) → get_tensor (put_tensor t rest) ≡ some (t, rest)
unfolding get_tensor put_tensor
get-put_tensor t rest =
    rw
      (
        get-put_bytes t.shape (put_bytes t.bytes rest),
        get-put_bytes t.bytes rest,
        dtype_code_lem t.dtype,
      )
      refl

put_mask : Option TensorBuilder → Bytes
put_mask none = []
put_mask (some t) = put_tensor t []

get_mask : Bytes → Option (Option TensorBuilder)
get_mask [] = some none
get_mask (d ∷ s) = do (t, _) ← get_tensor (d ∷ s); some (some t)

get-put_mask : (m : Option TensorBuilder) → get_mask (put_mask m) ≡ some m
unfolding get_mask put_mask put_tensor
get-put_mask none = refl
get-put_mask (some t) = rw (get-put_tensor_cons t) refl
  where
    get-put_tensor_cons :
        (t : TensorBuilder)
        → get_tensor (dtype_code t.dtype ∷ put_bytes t.shape (put_bytes t.bytes [])) ≡ some (t, [])
    get-put_tensor_cons t = get-put_tensor t []

unfoldable pub put_request : RequestBuilder → Bytes
unfolding put_items put_tensor put_mask put_bytes dtype_code
put_request b =
    length b.route
    ∷ b.hop_index
    ∷ b.request_id
    ∷ put_items b.route (put_tensor b.tensor (put_mask b.mask))

unfoldable pub get_request : Bytes → Option (Option RequestReader)
unfolding get_items get_tensor get_mask get_bytes split code_dtype
get_request (n ∷ hop ∷ id ∷ s) = do
  (route, s1) ← get_items n s
  (tensor, s2) ← get_tensor s1
  mask ← get_mask s2
  some (
      some (
        read_request (record {
          route = route;
          hop_index = hop;
          request_id = id;
          tensor = tensor;
          mask = mask;
        })))
get_request _ = none

get-put_request : (b : RequestBuilder) → get_request (put_request b) ≡ some (some (read_request b))
unfolding get_request put_request
get-put_request b =
    rw
      (
        get-put_items b.route (put_tensor b.tensor (put_mask b.mask)),
        get-put_tensor b.tensor (put_mask b.mask),
        get-put_mask b.mask,
      )
      refl

unfoldable pub put_response : ResponseBuilder → Bytes
unfolding put_tensor put_bytes dtype_code
put_response b = b.request_id ∷ put_tensor b.tensor []

unfoldable pub get_response : Bytes → Option (Option ResponseReader)
unfolding get_tensor get_bytes split code_dtype
get_response [] = none
get_response (id ∷ s) = do
  (tensor, _) ← get_tensor s
  some (some (read_response (record { request_id = id; tensor = tensor })))

get-put_response :
    (b : ResponseBuilder) → get_response (put_response b) ≡ some (some (read_response b))
unfolding get_response put_response
get-put_response b = rw (get-put_tensor b.tensor []) refl

unfoldable pub peer_of : Bytes → Option ℕ
peer_of [] = none
peer_of (p ∷ _) = some p

abbrev pub wire : Wire ℕ
wire = record {
  same = ℕ_discrete;
  to_bytes = λ p. p ∷ [];
  from_bytes = peer_of;
  write_request = λ b. some (put_request b);
  parse_request = get_request;
  request_fits = λ b. true;
  write_response = λ b. some (put_response b);
  parse_response = get_response;
  response_fits = λ b. true;
}

pub wire-IsFaithful : IsFaithful wire
unfolding peer_of
wire-IsFaithful = record {
  peer = λ p. refl;
  request = λ b h. (put_request b, refl, get-put_request b);
  response = λ b h. (put_response b, refl, get-put_response b);
}

-- Every other type that is a parameter is the numbers as well.
abbrev pub net : Net
net = record {
  PeerId = ℕ;
  Multiaddr = ℕ;
  Channel = ℕ;
  OutboundRequestId = ℕ;
  QueryId = ℕ;
  wire = wire;
  same_outbound = ℕ_discrete;
  same_query = ℕ_discrete;
  addr_bytes = λ a. a ∷ [];
}

abbrev pub answers : Answers net
answers = record { provides = λ k. true; outbound_id = 5; query_id = λ i. i; now = 100 }
