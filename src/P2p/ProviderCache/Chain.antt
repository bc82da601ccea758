-- ===== src/P2p/ProviderCache/Chain.antt =====
-- Which chain of peers the cache builds (src/p2p/src/provider_cache.rs).
use inference_mesh.Base.{
  ℕ, ◌≡◌, refl, ◌⊎◌, inl, inr, true, false, none, some, List, [], ◌∷◌, ◌++◌, map, keep, ℕ_discrete,
  arith, Bool-cases, All,
}
use inference_mesh.Base.HashMap
use inference_mesh.P2p.ProviderCache.{
  ProviderEntry, ProviderCache, values_or_default, is_candidate, get_excluding, build_chain,
}

module _ {P : Type 0} (same : Discrete P) (c : ProviderCache P) (now : ℕ) (exclude : List P) where
  -- The entries of a layer, in the order in which they were inserted.
  abbrev pub entries : ℕ → List (ProviderEntry P)
  entries layer = values_or_default (HashMap.get ℕ_discrete layer c.providers)

  abbrev pub IsRefused : ProviderEntry P → Type 0
  IsRefused e = is_candidate same now c.ttl exclude e ≡ false

  -- The peer was the first to be found for the layer among those that are fresh and not excluded.
  pub record IsFirst (layer : ℕ) (p : P) : Type 0 where
    pub before : List (ProviderEntry P)
    pub entry : ProviderEntry P
    pub after : List (ProviderEntry P)
    pub all_entries : entries layer ≡ before ++ (entry ∷ after)
    pub refused_before : All IsRefused before
    pub accepted : is_candidate same now c.ttl exclude entry ≡ true
    pub of_peer : entry.peer_id ≡ p

  abbrev pub IsChain : List ℕ → List P → Type 0
  IsChain [] [] = Unit
  IsChain [] (p ∷ ps) = ⊥
  IsChain (l ∷ ls) [] = ⊥
  IsChain (l ∷ ls) (p ∷ ps) = IsFirst l p × IsChain ls ps

  -- Some layer of the list has no entry that is fresh and not excluded.
  abbrev pub HasGap : List ℕ → Type 0
  HasGap [] = ⊥
  HasGap (l ∷ ls) = All IsRefused (entries l) ⊎ HasGap ls

  -- What `keep` finds: nothing, or a first entry.
  data Scan (es : List (ProviderEntry P)) : List P → Type 0 where
    nothing : {ps : List P} → All IsRefused es → ps ≡ [] → Scan es ps
    found :
        {ps : List P} (before : List (ProviderEntry P)) (e : ProviderEntry P)
        (after : List (ProviderEntry P)) (rest : List P)
        → es ≡ before ++ (e ∷ after)
        → All IsRefused before
        → is_candidate same now c.ttl exclude e ≡ true
        → ps ≡ e.peer_id ∷ rest
        → Scan es ps

  scan :
      (es : List (ProviderEntry P))
      → Scan es (map (λ e. e.peer_id) (keep (is_candidate same now c.ttl exclude) es))
  scan [] = nothing tt refl
  scan (x ∷ es) = elim (Bool-cases (is_candidate same now c.ttl exclude x)) [
    | inl yes_x ↦
        found [] x es (map (λ e. e.peer_id) (keep (is_candidate same now c.ttl exclude) es)) refl tt
          yes_x (rw yes_x)
    | inr no_x ↦ rw no_x (elim (scan es) [
      | nothing none_left e ↦ nothing (no_x, none_left) e
      | found before e after rest split refused accepted eq ↦
          found (x ∷ before) e after rest (rw split) (no_x, refused) accepted eq
    ])
  ]

  get_excluding-entries :
      (layer : ℕ)
      → get_excluding same c now layer exclude
        ≡ map (λ e. e.peer_id) (keep (is_candidate same now c.ttl exclude) (entries layer))
  unfolding get_excluding
  get_excluding-entries layer = ground arith

  candidates : (layer : ℕ) → Scan (entries layer) (get_excluding same c now layer exclude)
  candidates layer = rw (get_excluding-entries layer) (scan (entries layer))

  -- `build_chain` names for each layer, in order, the first usable peer, and fails exactly where
  -- some layer has none.
  pub build_chain_lem :
      (layers : List ℕ)
      → ((chain : List P) × (build_chain same c now layers exclude ≡ some chain)
          × IsChain layers chain)
        ⊎ ((build_chain same c now layers exclude ≡ none) × HasGap layers)
  unfolding build_chain
  build_chain_lem [] = inl ([], refl, tt)
  build_chain_lem (l ∷ ls) = elim (candidates l) [
    | nothing refused e ↦ inr (rw (e, build_chain) refl, inl refused)
    | found before x after rest split refused accepted e ↦
        let first : IsFirst l x.peer_id = record {
          before = before;
          entry = x;
          after = after;
          all_entries = split;
          refused_before = refused;
          accepted = accepted;
          of_peer = refl;
        } in
        elim (build_chain_lem ls) [
          | inl (chain, built, chained) ↦ inl (
            x.peer_id ∷ chain,
            rw (e, build_chain) (rw (built, build_chain) refl),
            (first, chained),
          )
          | inr (failed, gap) ↦ inr (rw (e, build_chain) (rw (failed, build_chain) refl), inr gap)
        ]
  ]
