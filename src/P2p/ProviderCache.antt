-- ===== src/P2p/ProviderCache.antt =====
-- src/p2p/src/provider_cache.rs: which peers were found for each layer, and when. An `Instant` is a
-- number of nanoseconds, and the clock's value is an argument of each operation that reads it.
pub mod Laws
pub mod Chain
use inference_mesh.Base
use inference_mesh.Base.{
  ℕ, zero, suc, ◌+◌, ◌-◌, Bool, true, false, not, ◌&&◌, ite, ltb, if◌then◌else◌, Option, none, some,
  List, [], ◌∷◌, ◌++◌, map, keep, ℕ_discrete,
}
use inference_mesh.Base.HashMap
use inference_mesh.Base.HashMap.{HashMap}

pub record ProviderEntry (P : Type 0) : Type 0 where
  pub peer_id : P
  pub discovered_at : ℕ

pub record ProviderCache (P : Type 0) : Type 0 where
  pub providers : HashMap ℕ (List (ProviderEntry P))
  pub ttl : ℕ

-- `HashSet::contains`, and `is_empty` of a vector.
unfoldable pub contains {ℓ} : {A : Type ℓ} → Discrete A → A → List A → Bool
contains same a [] = false
contains same a (x ∷ xs) = ite (same x a) true (contains same a xs)

abbrev pub is_empty {ℓ} : {A : Type ℓ} → List A → Bool
is_empty [] = true
is_empty (x ∷ xs) = false

abbrev pub values_or_default {ℓ} : {A : Type ℓ} → Option (List A) → List A
values_or_default none = []
values_or_default (some xs) = xs

module _ {P : Type 0} where
  unfoldable pub new : ℕ → ProviderCache P
  new ttl = record { providers = []; ttl = ttl }

  -- `now.duration_since(e.discovered_at) < self.ttl`; the difference stops at 0.
  abbrev pub is_fresh : ℕ → ℕ → ProviderEntry P → Bool
  is_fresh now ttl e = ltb (now - e.discovered_at) ttl

  unfoldable pub insert : ProviderCache P → ℕ → ℕ → P → ProviderCache P
  insert c now layer peer_id =
      let entry : ProviderEntry P = record { peer_id = peer_id; discovered_at = now } in
      let entries = values_or_default (HashMap.get ℕ_discrete layer c.providers) in
      record c { providers = HashMap.insert ℕ_discrete layer (entries ++ (entry ∷ [])) c.providers }

  unfoldable pub prune_values :
      ℕ → ℕ → HashMap ℕ (List (ProviderEntry P)) → HashMap ℕ (List (ProviderEntry P))
  prune_values now ttl [] = []
  prune_values now ttl ((layer, entries) ∷ m) =
      (layer, keep (is_fresh now ttl) entries) ∷ prune_values now ttl m

  unfoldable pub drop_empty :
      HashMap ℕ (List (ProviderEntry P)) → HashMap ℕ (List (ProviderEntry P))
  drop_empty = keep (λ e. not (is_empty e.1))

  unfoldable pub prune_expired : ProviderCache P → ℕ → ProviderCache P
  unfolding prune_values drop_empty
  prune_expired c now = record c { providers = drop_empty (prune_values now c.ttl c.providers) }

  unfoldable pub length : HashMap ℕ (List (ProviderEntry P)) → ℕ
  length [] = 0
  length ((layer, entries) ∷ m) = Base.length entries + length m

module _ {P : Type 0} (same : Discrete P) where
  abbrev pub is_candidate : ℕ → ℕ → List P → ProviderEntry P → Bool
  is_candidate now ttl exclude e = is_fresh now ttl e && not (contains same e.peer_id exclude)

  unfoldable pub get_excluding : ProviderCache P → ℕ → ℕ → List P → List P
  get_excluding c now layer exclude = elim (HashMap.get ℕ_discrete layer c.providers) [
    | none ↦ []
    | some entries ↦ map (λ e. e.peer_id) (keep (is_candidate now c.ttl exclude) entries)
  ]

  unfoldable pub build_chain : ProviderCache P → ℕ → List ℕ → List P → Option (List P)
  build_chain c now [] exclude = some []
  build_chain c now (layer ∷ layers) exclude =
      let rest = build_chain c now layers exclude in
      elim (get_excluding c now layer exclude) [
        | [] ↦ none
        | candidate ∷ _ ↦ elim rest [ none ↦ none | some chain ↦ some (candidate ∷ chain) ]
      ]

  unfoldable pub evict : ProviderCache P → ℕ → P → ProviderCache P
  evict c layer peer_id = elim (HashMap.get ℕ_discrete layer c.providers) [
    | none ↦ c
    | some entries ↦
        let kept = keep (λ e. not (ite (same e.peer_id peer_id) true false)) entries in
        record c { providers = HashMap.insert ℕ_discrete layer kept c.providers }
  ]
