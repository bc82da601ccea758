-- ===== src/Protocol/Request/RoundTrip.antt =====
-- A request that is built is read back as it was given (src/protocol/src/request.rs).
use inference_mesh.Base.{
  ℕ, ◌-◌, ◌<◌, ◌≡◌, refl, true, lt→ltb, ◌==◌, Option, none, some, List, [], ◌∷◌, map, length,
  length-map, ok, u32_mod,
}
use inference_mesh.Protocol.Schema.{
  Bytes, Wire, IsFaithful, TensorBuilder, RequestBuilder, read_request,
}
use inference_mesh.Protocol.Dtype
use inference_mesh.Protocol.Dtype.{Dtype}
use inference_mesh.Protocol.Request.{
  ForwardPassRequest, Payload, init_list, init_tensor, init_mask, from_bytes, build_message, build,
  read_peers, route, hop_index, request_id, is_terminal, tensor_dtype, tensor_shape, tensor_data,
  mask_data,
}

abbrev pub IsSmall : Payload → Type 0
IsSmall t = (length t.shape < u32_mod) × (length t.bytes < u32_mod)

abbrev pub IsSmallMask : Option Payload → Type 0
IsSmallMask none = Unit
IsSmallMask (some t) = IsSmall t

abbrev pub tensor_message : Payload → TensorBuilder
tensor_message t = record { dtype = Dtype.to_capnp t.dtype; shape = t.shape; bytes = t.bytes }

abbrev pub mask_message : Option Payload → Option TensorBuilder
mask_message none = none
mask_message (some t) = some (tensor_message t)

init_list_lem {ℓ} : {A : Type ℓ} (xs : List A) → length xs < u32_mod → init_list xs ≡ ok xs
unfolding init_list
init_list_lem xs h = rw (lt→ltb _ _ h)

pub init_tensor_lem : (t : Payload) → IsSmall t → init_tensor t ≡ ok (tensor_message t)
unfolding init_tensor
init_tensor_lem t h = rw (lt→ltb _ _ h.0, lt→ltb _ _ h.1)

init_mask_lem : (m : Option Payload) → IsSmallMask m → init_mask m ≡ ok (mask_message m)
unfolding init_mask
init_mask_lem none h = refl
init_mask_lem (some t) h = rw (lt→ltb _ _ h.0, lt→ltb _ _ h.1)

module _ {P : Type 0} (w : Wire P) where
  abbrev pub message : List P → ℕ → ℕ → Payload → Option Payload → RequestBuilder
  message peers hop rid t m = record {
    route = map w.to_bytes peers;
    hop_index = hop;
    request_id = rid;
    tensor = tensor_message t;
    mask = mask_message m;
  }

  -- The lists have lengths that a `u32` holds, and the message is within capnp's limits.
  pub record IsSendable (peers : List P) (hop rid : ℕ) (t : Payload) (m : Option Payload)
      : Type 0 where
    pub small_route : length peers < u32_mod
    pub small_tensor : IsSmall t
    pub small_mask : IsSmallMask m
    pub fits : w.request_fits (message peers hop rid t m) ≡ true

  -- Every accessor of the request returns the given value.
  pub record Carries (r : ForwardPassRequest) (peers : List P) (hop rid : ℕ) (t : Payload)
      (m : Option Payload) : Type 0 where
    pub has_route : route w r ≡ ok peers
    pub has_hop : hop_index r ≡ ok hop
    pub has_id : request_id r ≡ ok rid
    pub has_dtype : tensor_dtype r ≡ ok t.dtype
    pub has_shape : tensor_shape r ≡ ok t.shape
    pub has_data : tensor_data r ≡ ok t.bytes
    pub has_mask : mask_data r ≡ ok m
    pub readable : from_bytes w r.bytes ≡ ok r

  build_message_lem :
      (peers : List P) (hop rid : ℕ) (t : Payload) (m : Option Payload)
      → IsSendable peers hop rid t m
      → build_message w peers hop rid t m ≡ ok (message peers hop rid t m)
  unfolding build_message
  build_message_lem peers hop rid t m s =
      rw (init_list_lem (map w.to_bytes peers) (rw (length-map w.to_bytes peers) s.small_route))
        (rw (init_tensor_lem t s.small_tensor, init_mask_lem m s.small_mask))

  module _ (f : IsFaithful w) where
    pub read_peers_lem :
        (peers : List P) → read_peers w (map some (map w.to_bytes peers)) ≡ ok peers
    unfolding read_peers
    read_peers_lem [] = refl
    read_peers_lem (p ∷ peers) = rw (f.peer p, read_peers_lem peers)

    request_of :
        (peers : List P) (hop rid : ℕ) (t : Payload) (m : Option Payload)
        → Bytes
        → ForwardPassRequest
    request_of peers hop rid t m bs = record {
      bytes = bs;
      msg = some (read_request (message peers hop rid t m));
    }

    mask_data_lem :
        (peers : List P) (hop rid : ℕ) (t : Payload) (m : Option Payload) (bs : Bytes)
        → mask_data (request_of peers hop rid t m bs) ≡ ok m
    unfolding mask_data request_of
    mask_data_lem peers hop rid t none bs = refl
    mask_data_lem peers hop rid t (some x) bs = rw (Dtype.from_capnp_res-to_capnp x.dtype)

    -- With faithful libraries and sizes within the limits, `build` succeeds, and every accessor of
    -- the request returns what the request was built from.
    pub build-Carries :
        (peers : List P) (hop rid : ℕ) (t : Payload) (m : Option Payload)
        → IsSendable peers hop rid t m
        → (r : ForwardPassRequest) × (build w peers hop rid t m ≡ ok r)
          × Carries r peers hop rid t m
    unfolding build route hop_index request_id tensor_dtype tensor_shape tensor_data request_of
    build-Carries peers hop rid t m s =
        let (bs, written, parsed) = f.request (message peers hop rid t m) s.fits in
        (
          request_of peers hop rid t m bs,
          rw (build_message_lem peers hop rid t m s, written, parsed) refl,
          record {
            has_route = read_peers_lem peers;
            has_hop = refl;
            has_id = refl;
            has_dtype = Dtype.from_capnp_res-to_capnp t.dtype;
            has_shape = refl;
            has_data = refl;
            has_mask = mask_data_lem peers hop rid t m bs;
            readable = rw parsed refl;
          },
        )

  -- A request is terminal exactly at the last hop of its route.
  pub is_terminal_lem :
      {peers : List P} {hop rid : ℕ} {t : Payload} {m : Option Payload} (r : ForwardPassRequest)
      → Carries r peers hop rid t m
      → is_terminal w r ≡ ok (hop == length peers - 1)
  unfolding is_terminal
  is_terminal_lem r c = rw (c.has_route, c.has_hop) refl
