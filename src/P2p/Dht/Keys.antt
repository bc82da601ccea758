-- ===== src/P2p/Dht/Keys.antt =====
-- Different layers have different keys (src/p2p/src/dht.rs).
use inference_mesh.Base.{
  ℕ, zero, suc, ◌+◌, ◌-◌, ◌*◌, ◌/◌, ◌%◌, ◌^◌, ◌<◌, ◌≡◌, refl, sym, ap, ◌∙◌, [], ◌∷◌, ◌++◌, drop,
  length, u32_mod, arith,
}
use native.Mathlib.Nat.{pow-suc}
use inference_mesh.Protocol.Schema.{Bytes}
use inference_mesh.P2p.Dht.{show_fuel, show_u32, zeros, layer_key}

-- The number that a text of digits stands for.
value_from : ℕ → Bytes → ℕ
value_from acc [] = acc
value_from acc (c ∷ cs) = value_from (acc * 10 + (c - b'0')) cs

value_from-append :
    (acc : ℕ) (xs ys : Bytes) → value_from acc (xs ++ ys) ≡ value_from (value_from acc xs) ys
unfolding value_from
value_from-append acc [] ys = refl
value_from-append acc (x ∷ xs) ys = value_from-append (acc * 10 + (x - b'0')) xs ys

value_from-show_fuel : (fuel n : ℕ) → n < 10 ^ fuel → value_from 0 (show_fuel fuel n) ≡ n
unfolding value_from show_fuel
value_from-show_fuel zero n h = omega arith
value_from-show_fuel (suc fuel) n h = ground (
  arith,
  value_from-show_fuel fuel (n / 10),
  value_from-append 0 (show_fuel fuel (n / 10)) ((b'0' + n % 10) ∷ []),
  pow-suc 10 fuel,
)

value_from-zeros : (n : ℕ) (s : Bytes) → value_from 0 (zeros n ++ s) ≡ value_from 0 s
unfolding value_from zeros
value_from-zeros zero s = refl
value_from-zeros (suc n) s = value_from-zeros n s

-- The key of a layer shows its number.
layer_of_key : Bytes → ℕ
layer_of_key key = value_from 0 (drop 6 key)

layer_of_key-layer_key : (layer : ℕ) → layer < u32_mod → layer_of_key (layer_key layer) ≡ layer
unfolding layer_of_key layer_key
layer_of_key-layer_key layer h =
    value_from-zeros (3 - length (show_u32 layer)) (show_u32 layer)
    ∙ unfold show_u32 in value_from-show_fuel 10 layer (omega arith)

-- Two layers, each a `u32`, are never stored under one key.
pub layer_key-injective : (a b : ℕ) → a < u32_mod → b < u32_mod → layer_key a ≡ layer_key b → a ≡ b
layer_key-injective a b ha hb e =
    sym (layer_of_key-layer_key a ha) ∙ (ap layer_of_key e ∙ layer_of_key-layer_key b hb)
