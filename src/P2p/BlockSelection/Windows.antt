-- ===== src/P2p/BlockSelection/Windows.antt =====
-- The least throughput of a run of blocks, and that of one block (src/p2p/src/block_selection.rs).
use inference_mesh.Base.{
  ℕ, zero, suc, ◌+◌, ◌-◌, ◌<◌, ◌≤◌, ◌≡◌, refl, sym, ◌∙◌, Bool, true, false, if◌then◌else◌, leb, ◌⊎◌,
  inl, inr, some, List, [], ◌∷◌, length, length-map, take, drop, get_elem?, get_elem?_in, All,
  All-get_elem?, arith,
}
use inference_mesh.Base.HashMap.{HashMap}
use inference_mesh.P2p.Types.{
  ServerState, offline, joining, online, as_u8, ServerInfo, RemoteModuleInfo,
}
use inference_mesh.P2p.BlockSelection.{
  Floats, IsOrdered, add_servers, compute_throughputs, fold_min, window_min,
}

module _ {A : Type 0} where
  get_elem?-drop : (xs : List A) (s i : ℕ) → get_elem? (drop s xs) i ≡ get_elem? xs (s + i)
  get_elem?-drop xs zero i = let same : 0 + i ≡ i = omega arith in rw same refl
  get_elem?-drop [] (suc s) i = refl
  get_elem?-drop (x ∷ xs) (suc s) i =
      let next : suc s + i ≡ suc (s + i) = omega arith in rw next (get_elem?-drop xs s i)

  get_elem?-take : (xs : List A) (n i : ℕ) → i < n → get_elem? (take n xs) i ≡ get_elem? xs i
  get_elem?-take xs zero i h = absurd (omega arith)
  get_elem?-take [] (suc n) i h = refl
  get_elem?-take (x ∷ xs) (suc n) zero h = refl
  get_elem?-take (x ∷ xs) (suc n) (suc i) h = get_elem?-take xs n i (omega arith)

  take_below : (xs : List A) (n i : ℕ) {a : A} → get_elem? (take n xs) i ≡ some a → i < n
  take_below xs zero i h = cc
  take_below [] (suc n) i h = cc
  take_below (x ∷ xs) (suc n) zero h = omega arith
  take_below (x ∷ xs) (suc n) (suc i) h = omega (arith, take_below xs n i h)

module _ (f : Floats) where
  open f use {F}

  -- A server that is joining or online counts, and one that is offline does not.
  abbrev pub counts : ServerState → Bool
  counts offline = false
  counts joining = true
  counts online = true

  -- What the servers of a block offer together, added up in the list's order.
  abbrev pub offered_from : {P : Type 0} → F → HashMap P (ServerInfo F) → F
  offered_from sum [] = sum
  offered_from sum ((peer, info) ∷ servers) =
      offered_from (if counts info.state then f.add sum info.throughput else sum) servers

  abbrev pub offered : {P : Type 0} → RemoteModuleInfo P F → F
  offered info = offered_from f.zero info.servers

  counts_lem : (state : ServerState) → leb (as_u8 joining) (as_u8 state) ≡ counts state
  counts_lem offline = refl
  counts_lem joining = refl
  counts_lem online = refl

  add_servers_lem :
      {P : Type 0} (servers : HashMap P (ServerInfo F)) (sum : F)
      → add_servers f joining sum servers ≡ offered_from sum servers
  unfolding add_servers
  add_servers_lem [] sum = refl
  add_servers_lem ((peer, info) ∷ servers) sum =
      rw (counts_lem info.state, add_servers_lem servers _) refl

  pub length-compute_throughputs :
      {P : Type 0} (infos : List (RemoteModuleInfo P F))
      → length (compute_throughputs f infos joining) ≡ length infos
  unfolding compute_throughputs
  length-compute_throughputs infos = length-map _ infos

  pub get_elem?-compute_throughputs :
      {P : Type 0} (infos : List (RemoteModuleInfo P F)) (i : ℕ) {info : RemoteModuleInfo P F}
      → get_elem? infos i ≡ some info
      → get_elem? (compute_throughputs f infos joining) i ≡ some (offered info)
  unfolding compute_throughputs
  get_elem?-compute_throughputs [] i h = cc
  get_elem?-compute_throughputs (x ∷ infos) zero {info} h =
      let first : some x ≡ some info = h in rw (add_servers_lem x.servers f.zero) cc
  get_elem?-compute_throughputs (x ∷ infos) (suc i) h = get_elem?-compute_throughputs infos i h

  fold_min_below :
      (xs : List F) (acc : F)
      → IsOrdered f
      → (f.less acc (fold_min f acc xs) ≡ false)
        × All (λ x. f.less x (fold_min f acc xs) ≡ false) xs
  unfolding fold_min
  fold_min_below [] acc o = (o.irreflexive acc, tt)
  fold_min_below (x ∷ xs) acc o =
      let (least, all) = fold_min_below xs (f.min acc x) o in
      (o.between _ _ _ (o.min_left acc x) least, (o.between _ _ _ (o.min_right acc x) least, all))

  fold_min_from :
      (xs : List F) (acc : F)
      → IsOrdered f
      → (fold_min f acc xs ≡ acc) ⊎ ((i : ℕ) × (get_elem? xs i ≡ some (fold_min f acc xs)))
  unfolding fold_min
  fold_min_from [] acc o = inl refl
  fold_min_from (x ∷ xs) acc o = elim (fold_min_from xs (f.min acc x) o) [
    | inl first ↦ elim (o.min_either acc x) [
      | inl same ↦ inl (rw (first, same) refl)
      | inr new ↦ inr (0, rw (first, new) refl)
    ]
    | inr (i, found) ↦ inr (suc i, found)
  ]

  -- No block of a run is below the least one of the run.
  pub window_min_below :
      (ts : List F) (n start k : ℕ) {t : F}
      → IsOrdered f
      → start ≤ k
      → k < start + n
      → get_elem? ts k ≡ some t
      → f.less t (window_min f ts n start) ≡ false
  window_min_below ts n start k {t} o from below h =
      let there : start + (k - start) ≡ k = omega arith in
      let at : get_elem? (take n (drop start ts)) (k - start) ≡ some t =
        rw
          (
            get_elem?-take (drop start ts) n (k - start) (omega arith),
            get_elem?-drop ts start (k - start),
            there,
          )
          h in
      All-get_elem? (λ x. f.less x (window_min f ts n start) ≡ false) (take n (drop start ts))
        (k - start) ((fold_min_below (take n (drop start ts)) f.infinity o).1) at

  -- Some block of the run is not above the least one of the run.
  pub window_min_found :
      (ts : List F) (n start : ℕ)
      → IsOrdered f
      → 0 < n
      → start + n ≤ length ts
      → (i : ℕ) × (t : F) × (start ≤ i)
        × (i < start + n)
        × (get_elem? ts i ≡ some t)
        × (f.less (window_min f ts n start) t ≡ false)
  window_min_found ts n start o pos room =
      elim (fold_min_from (take n (drop start ts)) f.infinity o) [
        | inl none_less ↦
            let (t, found) = get_elem?_in ts start (omega arith) in
            (start, t, omega arith, omega arith, found, rw none_less (o.top t))
        | inr (i, found) ↦
            let below = take_below (drop start ts) n i found in
            let same = get_elem?-take (drop start ts) n i below in
            let there = get_elem?-drop ts start i in
            (
              start + i,
              window_min f ts n start,
              omega arith,
              omega (arith, below),
              sym there ∙ sym same ∙ found,
              o.irreflexive _,
            )
      ]
