-- ===== src/P2p/Client/Requests.antt =====
-- Which request the client sends, and to whom (src/p2p/src/swarm.rs, `run_client`).
use inference_mesh.Base.{
  ℕ, ◌≡◌, refl, true, not, none, some, Option-cases, inl, inr, List, [], ◌∷◌, map, ℕ_discrete, ok,
  arith,
}
use inference_mesh.Base.HashMap
use inference_mesh.Base.HashMap.{HashMap, contains_key}
use inference_mesh.Protocol.Schema.{IsFaithful}
use inference_mesh.Protocol.Request.{ForwardPassRequest}
use inference_mesh.Protocol.Request.RoundTrip.{Carries, IsSendable, build-Carries}
use inference_mesh.P2p.Net.{Net, send_request}
use inference_mesh.P2p.ProviderCache.{is_empty}
use inference_mesh.P2p.Client.{
  ClientState, Job, continue, dedup_chain, all_found, chain_of, client_payload, send_chain,
  is_ready, build_chain,
}
use inference_mesh.P2p.Client.Chain.{dedup_chain_lem, unroll}

module _ (net : Net) where
  open net use {PeerId}

  -- The peers are those known for the layers, one for each layer, in order.
  abbrev pub IsProvided : HashMap ℕ PeerId → List ℕ → List PeerId → Type 0
  IsProvided providers [] [] = Unit
  IsProvided providers [] (p ∷ ps) = ⊥
  IsProvided providers (l ∷ ls) [] = ⊥
  IsProvided providers (l ∷ ls) (p ∷ ps) =
      (HashMap.get ℕ_discrete l providers ≡ some p) × IsProvided providers ls ps

  pub chain_of-IsProvided :
      (providers : HashMap ℕ PeerId) (layers : List ℕ)
      → all_found net providers layers ≡ true
      → IsProvided providers layers (chain_of net providers layers)
  unfolding all_found chain_of
  chain_of-IsProvided providers [] h = tt
  chain_of-IsProvided providers (l ∷ layers) h =
      elim (Option-cases (HashMap.get ℕ_discrete l providers)) [
        | inl e ↦ absurd (ground arith)
        | inr (p, e) ↦ rw (e, chain_of) (e, chain_of-IsProvided providers layers (ground arith))
      ]

  pub dedup_chain_some :
      (providers : HashMap ℕ PeerId) (layers : List ℕ) (chain : List PeerId)
      → not (is_empty layers) ≡ true
      → IsProvided providers layers chain
      → (first : PeerId) × (rest : List PeerId) × (dedup_chain net.wire.same chain ≡ first ∷ rest)
  dedup_chain_some providers [] chain h p = cc
  dedup_chain_some providers (l ∷ layers) [] h p = elim p [ ]
  dedup_chain_some providers (l ∷ layers) (x ∷ chain) h p =
      let (runs, whole, named, _) = dedup_chain_lem net.wire.same (x ∷ chain) in
      first_run runs whole named
    where
      first_run :
          (runs : List (PeerId × ℕ))
          → unroll runs ≡ x ∷ chain
          → dedup_chain net.wire.same (x ∷ chain) ≡ map (λ r. r.0) runs
          → (first : PeerId) × (rest : List PeerId) × (dedup_chain net.wire.same (x ∷ chain)
              ≡ first ∷ rest)
      first_run [] e named = cc
      first_run ((y, n) ∷ runs) e named = (y, map (λ r. r.0) runs, named)

  -- Once a provider is known for every layer, and no query is left, the client sends one request: its
  -- route is the chain of the providers with repetitions collapsed, which is never empty, it goes to
  -- the first peer of the route with hop 0 and id 1, and it carries the payload as `f32`s.
  pub build_chain_sends :
      (job : Job net) (st : ClientState net)
      → IsFaithful net.wire
      → is_ready net job st ≡ true
      → IsSendable net.wire
          (dedup_chain net.wire.same (chain_of net st.providers job.layers))
          0
          1
          (client_payload job.payload)
          none
      → (first : PeerId) × (rest : List PeerId) × (request : ForwardPassRequest) × (dedup_chain
            net.wire.same
            (chain_of net st.providers job.layers)
          ≡ first ∷ rest)
        × IsProvided st.providers job.layers (chain_of net st.providers job.layers)
        × (build_chain net job st
            ≡ ok (
                continue
                  (record st { current_chain = first ∷ rest; chain_built = true })
                  (send_request first request ∷ [])))
        × Carries net.wire request (first ∷ rest) 0 1 (client_payload job.payload) none
  unfolding build_chain
  build_chain_sends job st f ready sendable =
      let provided = chain_of-IsProvided st.providers job.layers (ground arith) in
      let (first, rest, e) =
        dedup_chain_some st.providers job.layers (chain_of net st.providers job.layers)
          (ground arith) provided in
      let (request, built, carries) =
        build-Carries net.wire f (first ∷ rest) 0 1 (client_payload job.payload) none
          (rw e at sendable) in
      (
        first,
        rest,
        request,
        e,
        provided,
        rw (ready, build_chain, e) (rw (built, send_chain) refl),
        carries,
      )
