-- ===== src/P2p/Dht.antt =====
-- src/p2p/src/dht.rs: the keys under which layers, addresses and servers are stored in the DHT.
-- Text is a list of bytes.
pub mod Keys
pub mod Records
use Prim.Native.Char.{code}
use Prim.Native.String.{String}
use inference_mesh.Base.{
  ℕ, zero, suc, ◌+◌, ◌-◌, ◌/◌, ◌%◌, Bool, if◌then◌else◌, ltb, List, [], ◌∷◌, ◌++◌, length, map,
}
use inference_mesh.Protocol.Schema.{Bytes, Wire}

abbrev pub codes : String → Bytes
codes String.[] = []
codes (String.◌∷◌ c s) = code c ∷ codes s

-- The decimal digits of a number below `10 ^ fuel`. Ten digits hold every `u32`.
unfoldable pub show_fuel : ℕ → ℕ → Bytes
show_fuel zero n = []
show_fuel (suc fuel) n =
    let higher = show_fuel fuel (n / 10) in
    if ltb n 10 then (b'0' + n) ∷ [] else higher ++ ((b'0' + n % 10) ∷ [])

unfoldable pub show_u32 : ℕ → Bytes
unfolding show_fuel
show_u32 n = show_fuel 10 n

unfoldable pub zeros : ℕ → Bytes
zeros zero = []
zeros (suc n) = b'0' ∷ zeros n

-- `{:03}`.
unfoldable pub pad3 : Bytes → Bytes
unfolding zeros
pad3 s = zeros (3 - length s) ++ s

unfoldable pub layer_key : ℕ → Bytes
unfolding show_u32 pad3
layer_key layer = codes "layer_" ++ pad3 (show_u32 layer)

abbrev pub hex_digit : ℕ → ℕ
hex_digit n = if ltb n 10 then b'0' + n else b'a' + (n - 10)

-- `{:02x}` of each byte.
unfoldable pub hex : Bytes → Bytes
hex [] = []
hex (b ∷ bs) = hex_digit (b / 16) ∷ hex_digit (b % 16) ∷ hex bs

module _ {P : Type 0} (w : Wire P) where
  unfoldable pub layer_addr_key : ℕ → P → Bytes
  unfolding show_u32 pad3 hex
  layer_addr_key layer peer_id =
      codes "addr_" ++ (hex (w.to_bytes peer_id) ++ (codes "_" ++ pad3 (show_u32 layer)))

-- `start..=end`.
unfoldable pub range : ℕ → ℕ → List ℕ
range start zero = []
range start (suc count) = start ∷ range (start + 1) count

unfoldable pub layers_between : ℕ → ℕ → List ℕ
unfolding range
layers_between start_layer end_layer = range start_layer (end_layer + 1 - start_layer)
