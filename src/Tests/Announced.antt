-- ===== src/Tests/Announced.antt =====
-- A node that announces three layers, with a description that is written as its throughput, to a
-- Kademlia that refuses the key of the last layer.
use inference_mesh.Base.{
  ℕ, ◌+◌, ◌≤◌, ◌≡◌, refl, ◌⊎◌, [], ◌∷◌, map, All, true, false, not, Bool, Option, ◌==◌, Error, none,
  some, err, suc, arith,
}
use inference_mesh.Protocol.Schema.{Bytes}
use inference_mesh.P2p.Dht.{layer_key, layers_between, range, show_fuel, zeros}
use inference_mesh.P2p.Dht.Records.{Kad, Texts, announce_layers, provide_all}
use inference_mesh.P2p.Dht.Records.Announced.{AreDistinct, Stores, providing, announce_layers_lem}
use inference_mesh.P2p.Types
use inference_mesh.P2p.Types.{ServerInfo, online}

abbrev description : ServerInfo ℕ
description = Types.new online 5

abbrev described : Bytes → Option (ServerInfo ℕ)
described [] = none
described (n ∷ value) = some (Types.new online n)

abbrev texts : Texts ℕ ℕ
texts = record {
  to_base58 = λ p. p ∷ [];
  to_vec = λ info. some (info.throughput ∷ []);
  from_slice = described;
}

-- Whether the last byte of a key is another than the digit 5.
abbrev agrees : Bytes → Bool
agrees [] = true
agrees (c ∷ []) = not (c == b'5')
agrees (c ∷ d ∷ key) = agrees (d ∷ key)

abbrev kad : Kad
kad = record { provides = agrees; stores = λ entry. true }

announce_layers_lem_example :
    AreDistinct (map layer_key (layers_between 3 5))
    × ((All (λ layer. agrees (layer_key layer) ≡ true) (layers_between 3 5)
          × Stores texts kad
              (layers_between 3 5)
              description
              11
              (announce_layers texts kad 3 5 description 11))
        ⊎ ((agreed : ℕ) × (3 + agreed ≤ 5)
            × All (λ layer. agrees (layer_key layer) ≡ true) (range 3 agreed)
            × (agrees (layer_key (3 + agreed)) ≡ false)
            × (announce_layers texts kad 3 5 description 11
                ≡ (providing (range 3 (suc agreed)), err Error.providing_failed))))
announce_layers_lem_example =
    announce_layers_lem texts kad 3 5 description 11 (omega arith) (omega arith)

refused-announce_layers :
    announce_layers texts kad 3 5 description 11
    ≡ (providing (3 ∷ 4 ∷ 5 ∷ []), err Error.providing_failed)
unfolding announce_layers layers_between range layer_key show_fuel zeros provide_all
refused-announce_layers = refl
