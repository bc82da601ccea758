-- ===== src/P2p/Routing.antt =====
-- src/p2p/src/routing.rs: the request that a worker sends on. The build is the release build of
-- the README, in which `hop_index + 1` wraps at 2 ^ 32.
pub mod Relay
use inference_mesh.Base.{ℕ, ◌+◌, ◌%◌, List, get_elem?, Result, ok, ◌>>=◌, or_panic, u32_mod}
use inference_mesh.Protocol.Schema.{Wire}
use inference_mesh.Protocol.Request
use inference_mesh.Protocol.Request.{ForwardPassRequest}

module _ {P : Type 0} (w : Wire P) where
  unfoldable pub build_next_request : ForwardPassRequest → Result (P × ForwardPassRequest)
  build_next_request request = do
    route ← Request.route w request
    hop_index ← Request.hop_index request
    let next_index = (hop_index + 1) % u32_mod
    next_peer ← or_panic (get_elem? route next_index)
    mask ← Request.mask_data request
    request_id ← Request.request_id request
    dtype ← Request.tensor_dtype request
    shape ← Request.tensor_shape request
    bytes ← Request.tensor_data request
    next ←
        Request.build w route next_index request_id
          (record { dtype = dtype; shape = shape; bytes = bytes }) mask
    ok (next_peer, next)
