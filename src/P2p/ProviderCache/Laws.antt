-- ===== src/P2p/ProviderCache/Laws.antt =====
-- What the cache offers after each operation (src/p2p/src/provider_cache.rs).
use inference_mesh.Base.{
  ℕ, ◌≤◌, ◌≡◌, refl, sym, ◌∙◌, true, false, not, ◌&&◌, ite, ltb, if◌then◌else◌, none, List, [], ◌∷◌,
  ◌++◌, map, keep, ℕ_discrete, arith, Option-cases, append-nil, inl, inr,
}
use inference_mesh.Base.HashMap
use inference_mesh.Base.HashMap.{HashMap, IsKeyed, get-insert}
use inference_mesh.P2p.ProviderCache.{
  ProviderEntry, ProviderCache, contains, values_or_default, is_fresh, is_candidate, insert,
  prune_values, drop_empty, prune_expired, get_excluding, evict,
}

module _ {P : Type 0} (same : Discrete P) where
  -- The peers that a list of entries offers.
  offered : ℕ → ℕ → List P → List (ProviderEntry P) → List P
  offered now ttl exclude es = map (λ e. e.peer_id) (keep (is_candidate same now ttl exclude) es)

  get_excluding_lem :
      (c : ProviderCache P) (now layer : ℕ) (exclude : List P)
      → get_excluding same c now layer exclude
        ≡ offered now c.ttl exclude (values_or_default (HashMap.get ℕ_discrete layer c.providers))
  unfolding get_excluding offered
  get_excluding_lem c now layer exclude = ground arith

  offered-append :
      (now ttl : ℕ) (exclude : List P) (xs ys : List (ProviderEntry P))
      → offered now ttl exclude (xs ++ ys)
        ≡ offered now ttl exclude xs ++ offered now ttl exclude ys
  unfolding offered
  offered-append now ttl exclude [] ys = refl
  offered-append now ttl exclude (x ∷ xs) ys = ground (arith, offered-append now ttl exclude xs ys)

  offered-evicted :
      (now ttl : ℕ) (p : P) (exclude : List P) (es : List (ProviderEntry P))
      → offered now ttl exclude (keep (λ e. not (ite (same e.peer_id p) true false)) es)
        ≡ offered now ttl (p ∷ exclude) es
  unfolding offered contains
  offered-evicted now ttl p exclude [] = refl
  offered-evicted now ttl p exclude (x ∷ es) =
      ground (arith, offered-evicted now ttl p exclude es, same p x.peer_id)

  offered_none : (now ttl : ℕ) (exclude : List P) → offered now ttl exclude [] ≡ []
  unfolding offered
  offered_none now ttl exclude = refl

  -- A later look at the entries that were fresh earlier.
  offered-fresh :
      (early now ttl : ℕ) (exclude : List P) (es : List (ProviderEntry P))
      → early ≤ now
      → offered now ttl exclude (keep (is_fresh early ttl) es) ≡ offered now ttl exclude es
  unfolding offered
  offered-fresh early now ttl exclude [] h = refl
  offered-fresh early now ttl exclude (x ∷ es) h =
      ground (arith, offered-fresh early now ttl exclude es h)

  offered_new :
      (now ttl : ℕ) (p : P) (exclude : List P)
      → offered now ttl exclude (record { peer_id = p; discovered_at = now } ∷ [])
        ≡ (if ltb 0 ttl && not (contains same p exclude) then p ∷ [] else [])
  unfolding offered
  offered_new now ttl p exclude = ground arith

  -- After an insertion the layer offers what it did before and then the new peer, unless that is
  -- excluded or entries have no time to live; the other layers offer what they did.
  pub get_excluding-insert :
      (c : ProviderCache P) (now layer other : ℕ) (p : P) (exclude : List P)
      → get_excluding same (insert c now layer p) now other exclude
        ≡ get_excluding same c now other exclude
          ++ (ite
              (ℕ_discrete layer other)
              (if ltb 0 c.ttl && not (contains same p exclude) then p ∷ [] else [])
              [])
  unfolding insert
  get_excluding-insert c now layer other p exclude =
      let old = values_or_default (HashMap.get ℕ_discrete layer c.providers) in
      let entry : ProviderEntry P = record { peer_id = p; discovered_at = now } in
      ground (
        arith,
        get_excluding_lem (insert c now layer p) now other exclude,
        get_excluding_lem c now other exclude,
        get-insert ℕ_discrete layer other (old ++ (entry ∷ [])) c.providers,
        offered-append now c.ttl exclude old (entry ∷ []),
        offered_new now c.ttl p exclude,
        append-nil (get_excluding same c now other exclude),
      )

  -- Evicting a peer from a layer is the same as excluding it from that layer for good.
  pub get_excluding-evict :
      (c : ProviderCache P) (now layer other : ℕ) (p : P) (exclude : List P)
      → get_excluding same (evict same c layer p) now other exclude
        ≡ ite
            (ℕ_discrete layer other)
            (get_excluding same c now other (p ∷ exclude))
            (get_excluding same c now other exclude)
  unfolding evict
  get_excluding-evict c now layer other p exclude =
      elim (Option-cases (HashMap.get ℕ_discrete layer c.providers)) [
        | inl e ↦ ground (
          arith,
          get_excluding_lem c now other exclude,
          get_excluding_lem c now other (p ∷ exclude),
          offered_none now c.ttl exclude,
          offered_none now c.ttl (p ∷ exclude),
        )
        | inr (es, e) ↦
            let kept = keep (λ (x : ProviderEntry P). not (ite (same x.peer_id p) true false)) es in
            ground (
              arith,
              get_excluding_lem (evict same c layer p) now other exclude,
              get_excluding_lem c now other exclude,
              get_excluding_lem c now other (p ∷ exclude),
              get-insert ℕ_discrete layer other kept c.providers,
              offered-evicted now c.ttl p exclude es,
            )
      ]

  get-prune_values :
      (now ttl layer : ℕ) (m : HashMap ℕ (List (ProviderEntry P)))
      → values_or_default (HashMap.get ℕ_discrete layer (prune_values now ttl m))
        ≡ keep (is_fresh now ttl) (values_or_default (HashMap.get ℕ_discrete layer m))
  unfolding prune_values HashMap.get
  get-prune_values now ttl layer [] = refl
  get-prune_values now ttl layer ((k, es) ∷ m) = ground (arith, get-prune_values now ttl layer m)

  prune_values_absent :
      (now ttl layer : ℕ) (m : HashMap ℕ (List (ProviderEntry P)))
      → HashMap.get ℕ_discrete layer m ≡ none
      → HashMap.get ℕ_discrete layer (prune_values now ttl m) ≡ none
  unfolding prune_values HashMap.get
  prune_values_absent now ttl layer [] h = refl
  prune_values_absent now ttl layer ((k, es) ∷ m) h =
      ground (arith, prune_values_absent now ttl layer m)

  prune_values-IsKeyed :
      (now ttl : ℕ) (m : HashMap ℕ (List (ProviderEntry P)))
      → IsKeyed ℕ_discrete m
      → IsKeyed ℕ_discrete (prune_values now ttl m)
  unfolding prune_values
  prune_values-IsKeyed now ttl [] h = tt
  prune_values-IsKeyed now ttl ((k, es) ∷ m) (new, h) =
      (prune_values_absent now ttl k m new, prune_values-IsKeyed now ttl m h)

  drop_empty_absent :
      (layer : ℕ) (m : HashMap ℕ (List (ProviderEntry P)))
      → HashMap.get ℕ_discrete layer m ≡ none
      → HashMap.get ℕ_discrete layer (drop_empty m) ≡ none
  unfolding drop_empty HashMap.get
  drop_empty_absent layer [] h = refl
  drop_empty_absent layer ((k, []) ∷ m) h = ground (arith, drop_empty_absent layer m)
  drop_empty_absent layer ((k, x ∷ es) ∷ m) h = ground (arith, drop_empty_absent layer m)

  drop_empty-IsKeyed :
      (m : HashMap ℕ (List (ProviderEntry P)))
      → IsKeyed ℕ_discrete m
      → IsKeyed ℕ_discrete (drop_empty m)
  unfolding drop_empty
  drop_empty-IsKeyed [] h = tt
  drop_empty-IsKeyed ((k, []) ∷ m) (new, h) = drop_empty-IsKeyed m h
  drop_empty-IsKeyed ((k, x ∷ es) ∷ m) (new, h) =
      (drop_empty_absent k m new, drop_empty-IsKeyed m h)

  get-drop_empty :
      (layer : ℕ) (m : HashMap ℕ (List (ProviderEntry P)))
      → IsKeyed ℕ_discrete m
      → values_or_default (HashMap.get ℕ_discrete layer (drop_empty m))
        ≡ values_or_default (HashMap.get ℕ_discrete layer m)
  unfolding drop_empty HashMap.get
  get-drop_empty layer [] h = refl
  get-drop_empty layer ((k, []) ∷ m) (new, h) =
      ground (arith, get-drop_empty layer m h, drop_empty_absent k m new)
  get-drop_empty layer ((k, x ∷ es) ∷ m) (new, h) = ground (arith, get-drop_empty layer m h)

  -- Pruning at one time changes nothing that the cache offers then or later.
  pub get_excluding-prune_expired :
      (c : ProviderCache P) (early now layer : ℕ) (exclude : List P)
      → IsKeyed ℕ_discrete c.providers
      → early ≤ now
      → get_excluding same (prune_expired c early) now layer exclude
        ≡ get_excluding same c now layer exclude
  unfolding prune_expired
  get_excluding-prune_expired c early now layer exclude keyed h =
      get_excluding_lem (prune_expired c early) now layer exclude
      ∙ rw
          (
            get-drop_empty layer (prune_values early c.ttl c.providers)
                (prune_values-IsKeyed early c.ttl c.providers keyed),
            get-prune_values early c.ttl layer c.providers,
            offered-fresh early now c.ttl exclude
                (values_or_default (HashMap.get ℕ_discrete layer c.providers)) h,
          )
          (sym (get_excluding_lem c now layer exclude))
