-- ===== src/Protocol/Dtype.antt =====
-- src/protocol/src/types.rs: the element types of a tensor.
use inference_mesh.Base.{ℕ, ◌≡◌, refl, Option, none, some, Result, Error, ok, err}
use inference_mesh.Protocol.Schema.{CapnpDtype}

pub data Dtype : Type 0 where
  f16 bf16 f32 : Dtype

pub Dtype-discrete : Discrete Dtype
Dtype-discrete = hlevel

unfoldable pub to_capnp : Dtype → CapnpDtype
to_capnp f16 = CapnpDtype.f16
to_capnp bf16 = CapnpDtype.bf16
to_capnp f32 = CapnpDtype.f32

unfoldable pub from_capnp : CapnpDtype → Dtype
from_capnp CapnpDtype.f16 = f16
from_capnp CapnpDtype.bf16 = bf16
from_capnp CapnpDtype.f32 = f32

-- `none` is capnp's `NotInSchema`.
unfoldable pub from_capnp_res : Option CapnpDtype → Result Dtype
unfolding from_capnp
from_capnp_res (some d) = ok (from_capnp d)
from_capnp_res none = err Error.unknown_dtype

unfoldable pub element_size : Dtype → ℕ
element_size f16 = 2
element_size bf16 = 2
element_size f32 = 4

-- A type that is written to a message is read back as itself.
pub from_capnp_res-to_capnp : (d : Dtype) → from_capnp_res (some (to_capnp d)) ≡ ok d
unfolding from_capnp_res to_capnp
from_capnp_res-to_capnp f16 = refl
from_capnp_res-to_capnp bf16 = refl
from_capnp_res-to_capnp f32 = refl
