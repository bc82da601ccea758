-- ===== src/P2p/Dht/Records.antt =====
-- src/p2p/src/dht.rs: what a node asks of Kademlia, and the records of servers. The JSON of serde
-- and the text of a PeerId are parameters; a query's id is left out.
pub mod Announced
use inference_mesh.Base.{
  ℕ, Bool, Option, none, some, if◌then◌else◌, List, [], ◌∷◌, ◌++◌, map, Result, Error, ok, err,
  panic,
}
use inference_mesh.Protocol.Schema.{Bytes, Wire}
use inference_mesh.P2p.Types.{ServerInfo}
use inference_mesh.P2p.Dht.{codes, layer_key, layer_addr_key, layers_between}

-- A key and a value.
abbrev pub Record : Type 0
Record = Bytes × Bytes

pub data KadCommand : Type 0 where
  start_providing : Bytes → KadCommand
  put_record : Record → KadCommand
  get_providers : Bytes → KadCommand
  get_record : Bytes → KadCommand

-- Which keys Kademlia agrees to provide, and which records to store.
pub record Kad : Type 0 where
  pub provides : Bytes → Bool
  pub stores : Record → Bool

-- `format!("{}", peer_id)`, and `serde_json` on a ServerInfo.
pub record Texts (P F : Type 0) : Type 0 where
  pub to_base58 : P → Bytes
  pub to_vec : ServerInfo F → Option Bytes
  pub from_slice : Bytes → Option (ServerInfo F)

-- What was asked until the call returned, and what it returned.
abbrev pub Asked : Type 0
Asked = List KadCommand × Result {0} Unit

abbrev pub put : Kad → Record → Asked
put kad entry = (put_record entry ∷ [], if kad.stores entry then ok tt else err Error.store_failed)

module _ {P : Type 0} (w : Wire P) where
  unfoldable pub put_worker_address : Kad → ℕ → P → Bytes → Asked
  unfolding layer_addr_key
  put_worker_address kad layer peer_id addr = put kad (layer_addr_key w layer peer_id, addr)

  unfoldable pub get_worker_address : ℕ → P → KadCommand
  unfolding layer_addr_key
  get_worker_address layer peer_id = get_record (layer_addr_key w layer peer_id)

-- The loop over the layers, which ends at the first key that is refused.
unfoldable pub provide_all : Kad → List ℕ → Asked
provide_all kad [] = ([], ok tt)
provide_all kad (layer ∷ layers) =
    let rest = provide_all kad layers in
    if kad.provides (layer_key layer)
    then (start_providing (layer_key layer) ∷ rest.0, rest.1)
    else (start_providing (layer_key layer) ∷ [], err Error.providing_failed)

unfoldable pub announce_layers_simple : Kad → ℕ → ℕ → Asked
unfolding provide_all layers_between
announce_layers_simple kad start_layer end_layer =
    provide_all kad (layers_between start_layer end_layer)

-- `a?; b`.
abbrev pub then_ask : Asked → Asked → Asked
then_ask (commands, ok done) next = (commands ++ next.0, next.1)
then_ask (commands, err why) next = (commands, err why)
then_ask (commands, panic) next = (commands, panic)

unfoldable pub find_providers_for_layer : ℕ → KadCommand
find_providers_for_layer layer = get_providers (layer_key layer)

unfoldable pub find_providers_for_layers : List ℕ → List KadCommand
unfolding find_providers_for_layer
find_providers_for_layers layers = map find_providers_for_layer layers

module _ {P F : Type 0} (texts : Texts P F) where
  unfoldable pub server_info_key : P → Bytes
  server_info_key peer_id = codes "server_info_" ++ texts.to_base58 peer_id

  abbrev pub put_value : Kad → P → Option Bytes → Asked
  put_value kad peer_id none = ([], err Error.json_error)
  put_value kad peer_id (some value) = put kad (server_info_key peer_id, value)

  unfoldable pub announce_layers : Kad → ℕ → ℕ → ServerInfo F → P → Asked
  unfolding provide_all layers_between
  announce_layers kad start_layer end_layer info peer_id =
      then_ask (provide_all kad (layers_between start_layer end_layer))
        (put_value kad peer_id (texts.to_vec info))

  unfoldable pub get_server_info : P → KadCommand
  get_server_info peer_id = get_record (server_info_key peer_id)

  -- `unwrap_or_default`.
  abbrev pub or_empty : Option Bytes → Bytes
  or_empty none = []
  or_empty (some value) = value

  unfoldable pub build_server_info_record : P → ServerInfo F → Record
  build_server_info_record peer_id info = (server_info_key peer_id, or_empty (texts.to_vec info))

  unfoldable pub parse_server_info : Record → Option (ServerInfo F)
  parse_server_info r = texts.from_slice r.1
