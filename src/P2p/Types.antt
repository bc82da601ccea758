-- ===== src/P2p/Types.antt =====
-- src/p2p/src/types.rs: what the peers tell of themselves. `F` stands for `f64`.
use inference_mesh.Base.{
  ℕ, zero, suc, ◌+◌, ◌-◌, ltb, if◌then◌else◌, u64_mod, Bool, Option, none, some, List, [],
}
use inference_mesh.Base.HashMap.{HashMap}
use inference_mesh.Protocol.Schema.{Bytes}

pub data ServerState : Type 0 where
  offline joining online : ServerState

-- `state as u8`.
abbrev pub as_u8 : ServerState → ℕ
as_u8 offline = 0
as_u8 joining = 1
as_u8 online = 2

unfoldable pub from_u8 : ℕ → Option ServerState
from_u8 zero = some offline
from_u8 (suc zero) = some joining
from_u8 (suc (suc zero)) = some online
from_u8 (suc (suc (suc n))) = none

pub record ServerInfo (F : Type 0) : Type 0 where
  pub state : ServerState
  pub throughput : F
  pub start_block : Option ℕ
  pub end_block : Option ℕ
  pub public_name : Option Bytes
  pub version : Option Bytes
  pub network_rps : Option F
  pub forward_rps : Option F
  pub inference_rps : Option F
  pub adapters : List Bytes
  pub torch_dtype : Option Bytes
  pub quant_type : Option Bytes
  pub using_relay : Option Bool
  pub cache_tokens_left : Option ℕ
  pub next_pings : Option (HashMap Bytes F)

module _ {F : Type 0} where
  unfoldable pub new : ServerState → F → ServerInfo F
  new state throughput = record {
    state = state;
    throughput = throughput;
    start_block = none;
    end_block = none;
    public_name = none;
    version = none;
    network_rps = none;
    forward_rps = none;
    inference_rps = none;
    adapters = [];
    torch_dtype = none;
    quant_type = none;
    using_relay = none;
    cache_tokens_left = none;
    next_pings = none;
  }

  unfoldable pub with_blocks : ServerInfo F → ℕ → ℕ → ServerInfo F
  with_blocks info start end = record info { start_block = some start; end_block = some end }

  unfoldable pub with_throughput_info : ServerInfo F → F → F → F → ServerInfo F
  with_throughput_info info network forward inference = record info {
    network_rps = some network;
    forward_rps = some forward;
    inference_rps = some inference;
  }

pub record ModelInfo : Type 0 where
  pub num_blocks : ℕ
  pub repository : Option Bytes

pub record RemoteModuleInfo (P F : Type 0) : Type 0 where
  pub uid : Bytes
  pub servers : HashMap P (ServerInfo F)

pub record RemoteSpanInfo (P F : Type 0) : Type 0 where
  pub peer_id : P
  pub start : ℕ
  pub end : ℕ
  pub server_info : ServerInfo F

-- `RemoteModuleInfo::new`.
unfoldable pub module_info : {P F : Type 0} → Bytes → RemoteModuleInfo P F
module_info uid = record { uid = uid; servers = [] }

-- `end - start` on `usize`, which wraps where the span ends before it starts.
unfoldable pub length : {P F : Type 0} → RemoteSpanInfo P F → ℕ
length s = if ltb s.end s.start then s.end + u64_mod - s.start else s.end - s.start
