-- ===== src/P2p/Sequence/Priority/Listings.antt =====
-- What the blocks list a peer with, whatever order the servers of a block stand in
-- (src/p2p/src/sequence_manager.rs).
use inference_mesh.Base.{
  ℕ, ◌+◌, ◌≡◌, refl, sym, ◌∙◌, ◌≢◌, subst, inl, inr, ltb, Bool, if_neg, if◌then◌else◌, Bool-cases,
  none, List, [], ◌∷◌, All, ite, place, sort_by, sort_by-All, arith,
}
use inference_mesh.Base.HashMap
use inference_mesh.Base.HashMap.{HashMap, IsKeyed, get-insert}
use inference_mesh.P2p.Types.{RemoteModuleInfo, ServerInfo, ServerState, as_u8}

abbrev pub state_of : {F : Type 0} → ServerInfo F → ℕ
state_of info = as_u8 info.state

module _ {P F : Type 0} (same : Discrete P) (min_state : ServerState) (p : P) where
  -- The listings of the peer in at least a state, the latest first.
  abbrev pub see : ℕ → ServerInfo F → List (ℕ × ServerInfo F) → List (ℕ × ServerInfo F)
  see i info seen = if ltb (state_of info) (as_u8 min_state) then seen else (i, info) ∷ seen

  abbrev pub block_listings :
      ℕ → List (P × ServerInfo F) → List (ℕ × ServerInfo F) → List (ℕ × ServerInfo F)
  block_listings i [] seen = seen
  block_listings i ((q, info) ∷ servers) seen =
      block_listings i servers (ite (same q p) (see i info seen) seen)

  abbrev pub listings :
      ℕ → List (RemoteModuleInfo P F) → List (ℕ × ServerInfo F) → List (ℕ × ServerInfo F)
  listings i [] seen = seen
  listings i (m ∷ ms) seen = listings (i + 1) ms (block_listings i m.servers seen)

module _ {P F : Type 0} (same : Discrete P) (min_state : ServerState) (p : P) (i : ℕ)
    (less : P × ServerInfo F → P × ServerInfo F → Bool) where
  absent :
      (servers : List (P × ServerInfo F)) (seen : List (ℕ × ServerInfo F))
      → All (λ e. e.0 ≢ p) servers
      → block_listings same min_state p i servers seen ≡ seen
  absent [] seen others = refl
  absent ((q, info) ∷ servers) seen (other, others) =
      rw (if_neg (same q p) other) (absent servers seen others)

  skip_other :
      (q : P) (info : ServerInfo F) (servers : List (P × ServerInfo F))
      (seen : List (ℕ × ServerInfo F))
      → q ≢ p
      → block_listings same min_state p i ((q, info) ∷ servers) seen
        ≡ block_listings same min_state p i servers seen
  skip_other q info servers seen other = rw (if_neg (same q p) other) refl

  place-other :
      (q : P) (info : ServerInfo F) (servers : List (P × ServerInfo F))
      (seen : List (ℕ × ServerInfo F))
      → q ≢ p
      → block_listings same min_state p i (place less (q, info) servers) seen
        ≡ block_listings same min_state p i servers seen
  unfolding place
  place-other q info [] seen other = rw (if_neg (same q p) other) refl
  place-other q info ((r, next) ∷ servers) seen other =
      elim (Bool-cases (less (r, next) (q, info))) [
        | inl before ↦ rw before (place-other q info servers _ other)
        | inr after ↦ rw after (skip_other q info ((r, next) ∷ servers) seen other)
      ]

  place-only :
      (q : P) (info : ServerInfo F) (servers : List (P × ServerInfo F))
      (seen : List (ℕ × ServerInfo F))
      → All (λ e. e.0 ≢ p) servers
      → block_listings same min_state p i (place less (q, info) servers) seen
        ≡ block_listings same min_state p i ((q, info) ∷ []) seen
  unfolding place
  place-only q info [] seen others = refl
  place-only q info ((r, next) ∷ servers) seen (other, others) =
      elim (Bool-cases (less (r, next) (q, info))) [
        | inl before ↦ rw before (
            skip_other r next (place less (q, info) servers) seen other
            ∙ place-only q info servers seen others)
        | inr after ↦ rw after (absent ((r, next) ∷ servers) _ (other, others))
      ]

  others_of :
      (servers : List (P × ServerInfo F))
      → HashMap.get same p servers ≡ none
      → All (λ e. e.0 ≢ p) servers
  unfolding HashMap.get
  others_of [] h = tt
  others_of ((q, info) ∷ servers) h = elim (same q p) [
    | yes here ↦ absurd (ground arith)
    | no there ↦ (there, others_of servers (ground arith))
  ]

  -- A block that lists a peer once lists it with the same in whatever order it is looked at.
  pub block_listings-sort_by :
      (servers : List (P × ServerInfo F)) (seen : List (ℕ × ServerInfo F))
      → IsKeyed same servers
      → block_listings same min_state p i (sort_by less servers) seen
        ≡ block_listings same min_state p i servers seen
  unfolding sort_by
  block_listings-sort_by [] seen keyed = refl
  block_listings-sort_by ((q, info) ∷ servers) seen (new, keyed) = elim (same q p) [
    | yes here ↦
        let others = others_of servers (subst (λ r. HashMap.get same r servers ≡ none) here new) in
        place-only q info (sort_by less servers) seen
          (sort_by-All less (λ e. e.0 ≢ p) servers others)
        ∙ sym (absent servers _ others)
    | no there ↦
        place-other q info (sort_by less servers) seen there
        ∙ block_listings-sort_by servers seen keyed
        ∙ rw (if_neg (same q p) there) refl
  ]
