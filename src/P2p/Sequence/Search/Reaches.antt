-- ===== src/P2p/Sequence/Search/Reaches.antt =====
-- Where no cost is rounded up, the search comes to every node that edges lead to
-- (src/p2p/src/sequence_manager.rs).
use inference_mesh.Base.{
  ℕ, ◌<◌, ◌≡◌, refl, sym, ap, ◌∙◌, subst, ◌⊎◌, inl, inr, true, false, ◌==◌, Bool-cases, none, some,
  List, [], ◌∷◌, length, get_elem?, get_elem?_below, get_elem?-set, All, All-map, ok, or_panic,
  >>=-eq-ok, ok-injective, or_panic-ok, arith,
}
use inference_mesh.P2p.Sequence.Search.{
  F64, State, Progress, cost_of, cost_to_nanos, improve, relax,
}

pub true-false : true ≡ false → ⊥
true-false e = cc e

pub none-some {ℓ} : {A : Type ℓ} {a : A} → none ≡ some a → ⊥
none-some e = cc e

module _ {F : Type 0} (adj : List (List (ℕ × F))) where
  -- A chain of edges from a node to node 1.
  abbrev pub IsEdge : ℕ → ℕ → Type 0
  IsEdge u v =
      (edges : List (ℕ × F)) × (i : ℕ) × (w : F) × (get_elem? adj u ≡ some edges)
      × (get_elem? edges i ≡ some (v, w))

  abbrev pub IsChain : ℕ → List ℕ → Type 0
  IsChain u [] = u ≡ 1
  IsChain u (v ∷ path) = IsEdge u v × IsChain v path

module _ (f : F64) (adj : List (List (ℕ × f.F))) (Tame : ℕ → f.F → Type 0) where
  open f use {F}

  -- `Tame u x`: the search can meet the cost x at the node u. Such costs are below infinity, and none of them is above itself once it
  -- was rounded to nanoseconds and read back.
  pub record IsTame : Type 0 where
    pub finite : (u : ℕ) (x : F) → Tame u x → f.less x f.infinity ≡ true
    pub unequal : (u : ℕ) (x : F) → Tame u x → f.equal x f.infinity ≡ false
    pub adds :
        (u : ℕ) (edges : List (ℕ × F))
        → get_elem? adj u ≡ some edges
        → All (λ e. (x : F) → Tame u x → Tame e.0 (f.add x e.1)) edges
    pub read_back :
        (u : ℕ) (x : F)
        → Tame u x
        → Tame u (cost_of f (record { cost_ns = cost_to_nanos f x; node = u }))
    pub no_rise :
        (u : ℕ) (x : F)
        → Tame u x
        → f.less x (cost_of f (record { cost_ns = cost_to_nanos f x; node = u })) ≡ false

  -- The node has a distance that is not infinity.
  abbrev pub Near : Progress f → ℕ → Type 0
  Near st v = (x : F) × (get_elem? st.dist v ≡ some x) × Tame v x

  abbrev pub Done : Progress f → ℕ → Type 0
  Done st u = (edges : List (ℕ × F)) → get_elem? adj u ≡ some edges → All (λ e. Near st e.0) edges

  abbrev pub Matches : ℕ → F → State → Type 0
  Matches u x s = (s.node ≡ u) × (s.cost_ns ≡ cost_to_nanos f x)

  -- A state of the heap has the node's distance.
  abbrev pub Pending : List State → ℕ → F → Type 0
  Pending [] u x = ⊥
  Pending (s ∷ heap) u x = Matches u x s ⊎ Pending heap u x

  -- Every near node is waiting in the heap, or its edges lead to near nodes, or it is a busy one.
  pub record IsCovered (Busy : ℕ → F → Type 0) (st : Progress f) : Type 0 where
    pub known : (v : ℕ) (x : F) → get_elem? st.dist v ≡ some x → (x ≡ f.infinity) ⊎ Tame v x
    pub waiting :
        (u : ℕ) (x : F)
        → get_elem? st.dist u ≡ some x
        → Tame u x
        → Pending st.heap u x ⊎ (Done st u ⊎ Busy u x)
    pub heaped : All (λ s. Tame s.node (cost_of f s) × Near st s.node) st.heap

  improve-Near :
      (st : Progress f) (u next v : ℕ) (x : F)
      → next < length st.dist
      → Tame next x
      → Near st v
      → Near (improve f u next x st) v
  unfolding improve
  improve-Near st u next v x inside tame (y, got, tame_y) = elim (Bool-cases (next == v)) [
    | inl same ↦ (
      x,
      rw (get_elem?-set st.dist next v x inside, same) refl,
      subst (λ w. Tame w x) (ground arith) tame,
    )
    | inr other ↦ (y, rw (get_elem?-set st.dist next v x inside, other) got, tame_y)
  ]

  improve-IsCovered :
      {Busy : ℕ → F → Type 0} (st : Progress f) (u next : ℕ) (x : F)
      → IsTame
      → next < length st.dist
      → Tame next x
      → IsCovered Busy st
      → IsCovered Busy (improve f u next x st)
  unfolding improve
  improve-IsCovered st u next x t inside tame c = record {
    known = λ v y got. elim (Bool-cases (next == v)) [
      | inl same ↦ inr (
          subst (λ w. Tame w y) (ground arith)
            (subst (Tame next) (ground (arith, got, get_elem?-set st.dist next v x inside)) tame))
      | inr other ↦ c.known v y (ground (arith, got, get_elem?-set st.dist next v x inside))
    ];
    waiting = λ v y got tame_y. elim (Bool-cases (next == v)) [
      | inl same ↦
          let at : x ≡ y = ground (arith, got, get_elem?-set st.dist next v x inside) in
          inl (inl (ground arith, ap (cost_to_nanos f) at))
      | inr other ↦
          elim (c.waiting v y (ground (arith, got, get_elem?-set st.dist next v x inside)) tame_y) [
            | inl p ↦ inl (inr p)
            | inr (inl done) ↦ inr (
                inl (λ edges has.
                  All-map edges (λ e near. improve-Near st u next e.0 x inside tame near)
                    (done edges has)))
            | inr (inr busy) ↦ inr (inr busy)
          ]
    ];
    heaped = (
      (
        t.read_back next x tame,
        (x, rw (get_elem?-set st.dist next next x inside) (ground arith), tame),
      ),
      All-map st.heap (λ s h. (h.0, improve-Near st u next s.node x inside tame h.1)) c.heaped,
    );
  }

  -- What the inner loop leaves: the edges lead to near nodes, and near nodes stay near.
  abbrev pub Relaxed : (ℕ → F → Type 0) → Progress f → List (ℕ × F) → Progress f → Type 0
  Relaxed Busy st edges st' =
      IsCovered Busy st' × All (λ e. Near st' e.0) edges × ((v : ℕ) → Near st v → Near st' v)

  pub relax-Relaxed :
      {Busy : ℕ → F → Type 0} (u : ℕ) (cost : F) (edges : List (ℕ × F)) (st st' : Progress f)
      → IsTame
      → Tame u cost
      → All (λ e. (x : F) → Tame u x → Tame e.0 (f.add x e.1)) edges
      → IsCovered Busy st
      → relax f u cost edges st ≡ ok st'
      → Relaxed Busy st edges st'
  unfolding relax
  relax-Relaxed u cost [] st st' t tame adds c e =
      let same : st ≡ st' = ok-injective e in
      (subst (IsCovered _) same c, tt, λ v near. subst (λ s. Near s v) same near)
  relax-Relaxed u cost ((next, weight) ∷ edges) st st' t tame (adds_one, adds) c e =
      let (d, read, rest) = >>=-eq-ok (or_panic (get_elem? st.dist next)) _ e in
      let got = or_panic-ok (get_elem? st.dist next) read in
      let inside = get_elem?_below st.dist next got in
      let x = f.add cost weight in
      let tame_x = adds_one cost tame in
      elim (Bool-cases (f.less x d)) [
        | inl closer ↦
            let better = improve f u next x st in
            let (c', nears, stays) =
              relax-Relaxed u cost edges better st' t tame adds
                (improve-IsCovered st u next x t inside tame_x c) (rw closer at rest) in
            let here : Near better next =
              (x, rw (get_elem?-set st.dist next next x inside) (ground arith), tame_x) in
            (
              c',
              (stays next here, nears),
              λ v near. stays v (improve-Near st u next v x inside tame_x near),
            )
        | inr no_closer ↦
            let (c', nears, stays) =
              relax-Relaxed u cost edges st st' t tame adds c (rw no_closer at rest) in
            let here : Near st next = elim (c.known next d got) [
              | inl far ↦ absurd (
                  true-false (sym (t.finite next x tame_x) ∙ (ap (f.less x) (sym far) ∙ no_closer)))
              | inr tame_d ↦ (d, got, tame_d)
            ] in
            (c', (stays next here, nears), stays)
      ]
