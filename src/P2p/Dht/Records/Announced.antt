-- ===== src/P2p/Dht/Records/Announced.antt =====
-- What a node announces (src/p2p/src/dht.rs, `announce_layers`).
use inference_mesh.Base.{
  ℕ, zero, suc, ◌+◌, ◌-◌, ◌≤◌, ◌<◌, ◌≡◌, ◌≢◌, refl, subst, ◌⊎◌, inl, inr, true, false, Bool-cases,
  none, some, Option-cases, List, [], ◌∷◌, ◌++◌, append-nil, map, All, Error, ok, err, u32_mod,
  arith,
}
use inference_mesh.Protocol.Schema.{Bytes}
use inference_mesh.P2p.Types.{ServerInfo}
use inference_mesh.P2p.Dht.{layer_key, layers_between, range}
use inference_mesh.P2p.Dht.Keys.{layer_key-injective}
use inference_mesh.P2p.Dht.Records.{
  Kad, KadCommand, Texts, Asked, start_providing, put_record, provide_all, then_ask, put_value,
  server_info_key, announce_layers,
}

-- No key occurs twice.
abbrev pub AreDistinct : List Bytes → Type 0
AreDistinct [] = Unit
AreDistinct (k ∷ ks) = All (λ j. k ≢ j) ks × AreDistinct ks

keys_after :
    (layer start count : ℕ)
    → layer < start
    → start + count ≤ u32_mod
    → All (λ j. layer_key layer ≢ j) (map layer_key (range start count))
unfolding range
keys_after layer start zero low high = tt
keys_after layer start (suc count) low high = (
  λ e. omega (
    arith,
    low,
    layer_key-injective layer start (omega (arith, low, high)) (omega (arith, high)) e,
  ),
  keys_after layer (start + 1) count (omega (arith, low)) (omega (arith, high)),
)

range-AreDistinct :
    (start count : ℕ) → start + count ≤ u32_mod → AreDistinct (map layer_key (range start count))
unfolding range
range-AreDistinct start zero high = tt
range-AreDistinct start (suc count) high = (
  keys_after start (start + 1) count (omega arith) (omega (arith, high)),
  range-AreDistinct (start + 1) count (omega (arith, high)),
)

-- The keys of the layers, provided one after the other.
abbrev pub providing : List ℕ → List KadCommand
providing layers = map (λ layer. start_providing (layer_key layer)) layers

-- Either Kademlia agrees to all keys, or the loop ends at the first key that it refuses.
provide_all-range :
    (kad : Kad) (start count : ℕ)
    → (All (λ layer. kad.provides (layer_key layer) ≡ true) (range start count)
        × (provide_all kad (range start count) ≡ (providing (range start count), ok tt)))
      ⊎ ((agreed : ℕ) × (agreed < count)
          × All (λ layer. kad.provides (layer_key layer) ≡ true) (range start agreed)
          × (kad.provides (layer_key (start + agreed)) ≡ false)
          × (provide_all kad (range start count)
              ≡ (providing (range start (suc agreed)), err Error.providing_failed)))
unfolding provide_all range
provide_all-range kad start zero = inl (tt, refl)
provide_all-range kad start (suc count) = elim (Bool-cases (kad.provides (layer_key start))) [
  | inr refused ↦
      let first : start ≡ start + 0 = omega arith in
      inr (
        0,
        omega arith,
        tt,
        subst (λ i. kad.provides (layer_key i) ≡ false) first refused,
        rw refused refl,
      )
  | inl agrees ↦ elim (provide_all-range kad (start + 1) count) [
    | inl (all, asked) ↦ inl ((agrees, all), rw (agrees, asked) refl)
    | inr (agreed, below, all, refused, asked) ↦
        let next : start + 1 + agreed ≡ start + suc agreed = omega arith in
        inr (
          suc agreed,
          omega (arith, below),
          (agrees, all),
          subst (λ i. kad.provides (layer_key i) ≡ false) next refused,
          rw (agrees, asked) refl,
        )
  ]
]

module _ {P F : Type 0} (texts : Texts P F) where
  -- What announcing asks and returns where all keys of the layers are agreed to.
  abbrev pub Stores : Kad → List ℕ → ServerInfo F → P → Asked → Type 0
  Stores kad layers info peer_id asked =
      ((texts.to_vec info ≡ none) × (asked ≡ (providing layers, err Error.json_error)))
      ⊎ ((value : Bytes) × (texts.to_vec info ≡ some value)
          × (asked.0 ≡ providing layers ++ (put_record (server_info_key texts peer_id, value) ∷ []))
          × (((kad.stores (server_info_key texts peer_id, value) ≡ true) × (asked.1 ≡ ok tt))
              ⊎ ((kad.stores (server_info_key texts peer_id, value) ≡ false)
                  × (asked.1 ≡ err Error.store_failed))))

  put_value-Stores :
      (kad : Kad) (layers : List ℕ) (info : ServerInfo F) (peer_id : P)
      → Stores kad layers info peer_id
          (then_ask (providing layers, ok tt) (put_value texts kad peer_id (texts.to_vec info)))
  put_value-Stores kad layers info peer_id = elim (Option-cases (texts.to_vec info)) [
    | inl none_here ↦ inl (none_here, rw none_here (rw (append-nil (providing layers)) refl))
    | inr (value, written) ↦ inr (
      value,
      written,
      rw written refl,
      elim (Bool-cases (kad.stores (server_info_key texts peer_id, value))) [
        | inl stored ↦ inl (stored, rw (written, stored) refl)
        | inr refused ↦ inr (refused, rw (written, refused) refl)
      ],
    )
  ]

  -- Announcing the layers of a range asks to provide the key of each, one after the other, and no key
  -- twice. Where all are agreed to, the description of the server is stored in one record, under the
  -- key of the peer, and the call fails where it cannot be written, before anything is stored, or
  -- where the record is refused. The first key that is refused ends the call with an error: the keys
  -- before it have been provided, no later one is asked for, and nothing is stored.
  pub announce_layers_lem :
      (kad : Kad) (start_layer end_layer : ℕ) (info : ServerInfo F) (peer_id : P)
      → start_layer < u32_mod
      → end_layer < u32_mod
      → AreDistinct (map layer_key (layers_between start_layer end_layer))
        × ((All
                (λ layer. kad.provides (layer_key layer) ≡ true)
                (layers_between start_layer end_layer)
              × Stores kad
                  (layers_between start_layer end_layer)
                  info
                  peer_id
                  (announce_layers texts kad start_layer end_layer info peer_id))
            ⊎ ((agreed : ℕ) × (start_layer + agreed ≤ end_layer)
                × All (λ layer. kad.provides (layer_key layer) ≡ true) (range start_layer agreed)
                × (kad.provides (layer_key (start_layer + agreed)) ≡ false)
                × (announce_layers texts kad start_layer end_layer info peer_id
                    ≡ (providing (range start_layer (suc agreed)), err Error.providing_failed))))
  unfolding announce_layers layers_between
  announce_layers_lem kad start_layer end_layer info peer_id low high =
      let count = end_layer + 1 - start_layer in
      (
        range-AreDistinct start_layer count (omega (arith, high, low)),
        elim (provide_all-range kad start_layer count) [
          | inl (all, asked) ↦
              inl (all, rw asked (put_value-Stores kad (range start_layer count) info peer_id))
          | inr (agreed, below, all, refused, asked) ↦
              inr (agreed, omega (arith, below), all, refused, rw asked refl)
        ],
      )
