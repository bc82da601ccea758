-- ===== src/P2p/Client/Chain.antt =====
-- What `dedup_chain` makes of a chain of peers (src/p2p/src/swarm.rs).
use inference_mesh.Base.{
  ℕ, zero, suc, ◌≡◌, ◌≢◌, refl, sym, ap, ◌∙◌, inl, inr, true, false, Bool-cases, ite, if◌then◌else◌,
  List, [], ◌∷◌, ◌++◌, append_assoc, append-nil, map, arith,
}
use inference_mesh.P2p.Client.{ends_with, dedup_from, dedup_chain}

-- A chain as its runs: a peer, and how often it is repeated.
abbrev pub repeat {ℓ} : {P : Type ℓ} → P → ℕ → List P → List P
repeat x zero rest = rest
repeat x (suc n) rest = x ∷ repeat x n rest

abbrev pub unroll {ℓ} : {P : Type ℓ} → List (P × ℕ) → List P
unroll [] = []
unroll ((x, n) ∷ runs) = x ∷ repeat x n (unroll runs)

-- No peer stands next to itself.
abbrev pub IsSteady {ℓ} : {P : Type ℓ} → List P → Type ℓ
IsSteady [] = Unit
IsSteady (x ∷ []) = Unit
IsSteady (x ∷ y ∷ xs) = (x ≢ y) × IsSteady (y ∷ xs)

module _ {P : Type 0} (same : Discrete P) where
  add_run : P → List (P × ℕ) → List (P × ℕ)
  add_run x [] = (x, 0) ∷ []
  add_run x ((y, n) ∷ runs) = ite (same y x) ((y, suc n) ∷ runs) ((x, 0) ∷ (y, n) ∷ runs)

  runs_of : List P → List (P × ℕ)
  runs_of [] = []
  runs_of (x ∷ xs) = add_run x (runs_of xs)

  abbrev peers : List (P × ℕ) → List P
  peers = map (λ r. r.0)

  unroll-add_run : (x : P) (runs : List (P × ℕ)) → unroll (add_run x runs) ≡ x ∷ unroll runs
  unfolding add_run
  unroll-add_run x [] = refl
  unroll-add_run x ((y, n) ∷ runs) = ground arith

  unroll-runs_of : (xs : List P) → unroll (runs_of xs) ≡ xs
  unfolding runs_of
  unroll-runs_of [] = refl
  unroll-runs_of (x ∷ xs) = unroll-add_run x (runs_of xs) ∙ ap (◌∷◌ x) (unroll-runs_of xs)

  add_run-IsSteady :
      (x : P) (runs : List (P × ℕ)) → IsSteady (peers runs) → IsSteady (peers (add_run x runs))
  unfolding add_run
  add_run-IsSteady x [] h = tt
  add_run-IsSteady x ((y, n) ∷ []) h = ground arith
  add_run-IsSteady x ((y, n) ∷ (z, m) ∷ runs) h = ground arith

  runs_of-IsSteady : (xs : List P) → IsSteady (peers (runs_of xs))
  unfolding runs_of
  runs_of-IsSteady [] = tt
  runs_of-IsSteady (x ∷ xs) = add_run-IsSteady x (runs_of xs) (runs_of-IsSteady xs)

  -- What is left of the runs after a chain that may end with the first of them.
  left_after : List P → List P → List P
  left_after acc [] = []
  left_after acc (y ∷ ys) = if ends_with same acc y then ys else y ∷ ys

  ends_with-append :
      (acc : List P) (x y : P) → ends_with same (acc ++ (x ∷ [])) y ≡ ite (same x y) true false
  ends_with-append [] x y = refl
  ends_with-append (z ∷ []) x y = refl
  ends_with-append (z ∷ u ∷ acc) x y = ends_with-append (u ∷ acc) x y

  ends_with_unique :
      (acc : List P) (x y : P) → ends_with same acc x ≡ true → ends_with same acc y ≡ true → x ≡ y
  ends_with_unique [] x y h k = cc
  ends_with_unique (z ∷ []) x y h k = ground arith
  ends_with_unique (z ∷ u ∷ acc) x y h k = ends_with_unique (u ∷ acc) x y h k

  left_after-add_run :
      (acc : List P) (x : P) (runs : List (P × ℕ))
      → ends_with same acc x ≡ true
      → left_after acc (peers (add_run x runs)) ≡ left_after acc (peers runs)
  unfolding left_after add_run
  left_after-add_run acc x [] h = ground arith
  left_after-add_run acc x ((y, n) ∷ runs) h = ground (arith, ends_with_unique acc x y)

  new_run :
      (acc : List P) (x : P) (runs : List (P × ℕ))
      → ends_with same acc x ≡ false
      → x ∷ left_after (acc ++ (x ∷ [])) (peers runs) ≡ left_after acc (peers (add_run x runs))
  unfolding left_after add_run
  new_run acc x [] h = ground arith
  new_run acc x ((y, n) ∷ runs) h = ground (arith, ends_with-append acc x y)

  dedup_from_lem :
      (acc chain : List P)
      → dedup_from same acc chain ≡ acc ++ left_after acc (peers (runs_of chain))
  unfolding dedup_from runs_of
  dedup_from_lem acc [] = unfold left_after in sym (append-nil acc)
  dedup_from_lem acc (x ∷ chain) = elim (Bool-cases (ends_with same acc x)) [
    | inl again ↦
        rw (again, left_after-add_run acc x (runs_of chain) again) (dedup_from_lem acc chain)
    | inr new ↦ rw new (
        dedup_from_lem (acc ++ (x ∷ [])) chain
        ∙ (append_assoc acc (x ∷ []) _ ∙ ap (◌++◌ acc) (new_run acc x (runs_of chain) new)))
  ]

  -- The chain is a sequence of runs of one peer each, of which neighbours are different peers, and
  -- `dedup_chain` is the list of the peers of the runs.
  pub dedup_chain_lem :
      (chain : List P)
      → (runs : List (P × ℕ)) × (unroll runs ≡ chain)
        × (dedup_chain same chain ≡ map (λ r. r.0) runs)
        × IsSteady (map (λ r. r.0) runs)
  unfolding dedup_chain left_after
  dedup_chain_lem chain = (
    runs_of chain,
    unroll-runs_of chain,
    dedup_from_lem [] chain ∙ start (peers (runs_of chain)),
    runs_of-IsSteady chain,
  )
    where
      start : (ys : List P) → left_after [] ys ≡ ys
      start [] = refl
      start (y ∷ ys) = refl
