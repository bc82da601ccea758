-- ===== src/P2p/Sequence/Search/Rounds.antt =====
-- The rounds of the search, and the nodes that it comes to (src/p2p/src/sequence_manager.rs).
use inference_mesh.Base.{
  ℕ, zero, suc, ◌<◌, ◌≡◌, refl, sym, ap, ◌∙◌, subst, ◌⊎◌, inl, inr, true, false, ◌==◌, Bool-cases,
  Option, none, some, List, [], ◌∷◌, length, get_elem?, set, get_elem?-set, All, All-get_elem?,
  Result, ok, err, panic, or_panic, >>=-eq-ok, ok-injective, or_panic-ok, some-injective, pos,
  replicate, length-replicate, get_elem?-replicate, arith,
}
use inference_mesh.P2p.Sequence.Search.{
  F64, State, above, pop_from, Progress, Round, stopped, goes, cost_of, cost_to_nanos, relax,
  follow, visit, round, search,
}
use inference_mesh.P2p.Sequence.Search.Reaches.{
  IsChain, IsTame, Near, Matches, Pending, IsCovered, relax-Relaxed, true-false, none-some,
}

module _ (f : F64) (adj : List (List (ℕ × f.F))) (Tame : ℕ → f.F → Type 0) where
  open f use {F}

  abbrev start : ℕ → Progress f
  start n = record {
    dist = set (replicate n f.infinity) 0 f.zero;
    prev = replicate n none;
    heap = record { cost_ns = pos 0; node = 0 } ∷ [];
  }

  -- Popping the heap.
  deeper :
      (other first : State) (rest : List State) (u : ℕ) (x : F)
      → Matches f adj Tame u x first ⊎ Pending f adj Tame rest u x
      → Matches f adj Tame u x first ⊎ Pending f adj Tame (other ∷ rest) u x
  deeper other first rest u x (inl m) = inl m
  deeper other first rest u x (inr q) = inr (inr q)

  pop_pending :
      (best : State) (heap : List State) (u : ℕ) (x : F)
      → Pending f adj Tame (best ∷ heap) u x
      → Matches f adj Tame u x (pop_from best heap).0
        ⊎ Pending f adj Tame (pop_from best heap).1 u x
  unfolding pop_from
  pop_pending best [] u x (inl m) = inl m
  pop_pending best [] u x (inr p) = elim p [ ]
  pop_pending best (s ∷ heap) u x p = elim (Bool-cases (above s best)) [
    | inl wins ↦ rw wins (elim p [
      | inl m ↦ inr (inl m)
      | inr (inl m) ↦ deeper best _ _ u x (pop_pending s heap u x (inl m))
      | inr (inr q) ↦ deeper best _ _ u x (pop_pending s heap u x (inr q))
    ])
    | inr loses ↦ rw loses (elim p [
      | inl m ↦ deeper s _ _ u x (pop_pending best heap u x (inl m))
      | inr (inl m) ↦ inr (inl m)
      | inr (inr q) ↦ deeper s _ _ u x (pop_pending best heap u x (inr q))
    ])
  ]

  pop-All :
      (Q : State → Type 0) (best : State) (heap : List State)
      → Q best
      → All Q heap
      → Q (pop_from best heap).0 × All Q (pop_from best heap).1
  unfolding pop_from
  pop-All Q best [] q qs = (q, tt)
  pop-All Q best (s ∷ heap) q (qs, all) = elim (Bool-cases (above s best)) [
    | inl wins ↦ let (a, b) = pop-All Q s heap qs all in rw wins (a, (q, b))
    | inr loses ↦ let (a, b) = pop-All Q best heap q all in rw loses (a, (qs, b))
  ]

  abbrev Free : ℕ → F → Type 0
  Free u x = ⊥

  popped-IsCovered :
      (dist : List F) (prev : List (Option ℕ)) (s : State) (heap : List State)
      → IsCovered f adj Tame Free (record { dist = dist; prev = prev; heap = s ∷ heap })
      → IsCovered f adj Tame
          (λ u x. Matches f adj Tame u x (pop_from s heap).0)
          (record { dist = dist; prev = prev; heap = (pop_from s heap).1 })
        × Tame (pop_from s heap).0.node (cost_of f (pop_from s heap).0)
        × Near f adj Tame
            (record { dist = dist; prev = prev; heap = (pop_from s heap).1 })
            (pop_from s heap).0.node
  popped-IsCovered dist prev s heap c =
      let all = pop-All _ s heap c.heaped.0 c.heaped.1 in
      (
        record {
          known = c.known;
          waiting = λ u x got tame. elim (c.waiting u x got tame) [
            | inl p ↦ elim (pop_pending s heap u x p) [ inl m ↦ inr (inr m) | inr q ↦ inl q ]
            | inr (inl done) ↦ inr (inl done)
            | inr (inr busy) ↦ absurd busy
          ];
          heaped = all.1;
        },
        all.0.0,
        all.0.1,
      )

  -- What a round leaves: all near nodes are covered again, or the search is over and has come to
  -- the end of every chain from a near node.
  abbrev Leaves : Progress f → Round f → Type 0
  Leaves st (goes next) =
      IsCovered f adj Tame Free next × ((v : ℕ) → Near f adj Tame st v → Near f adj Tame next v)
  Leaves st (stopped last) =
      (u : ℕ) (path : List ℕ) → Near f adj Tame st u → IsChain adj u path → Near f adj Tame last 1

  follow-Leaves :
      (s : State) (st : Progress f) (r : Round f)
      → IsTame f adj Tame
      → IsCovered f adj Tame (λ u x. Matches f adj Tame u x s) st
      → Tame s.node (cost_of f s)
      → follow f adj s st ≡ ok r
      → Leaves st r
  unfolding follow
  follow-Leaves s st r t c tame e =
      let (edges, read, e1) = >>=-eq-ok (or_panic (get_elem? adj s.node)) _ e in
      let got = or_panic-ok (get_elem? adj s.node) read in
      let (next, ran, e2) = >>=-eq-ok (relax f s.node (cost_of f s) edges st) _ e1 in
      let (c', nears, stays) =
        relax-Relaxed f adj Tame s.node (cost_of f s) edges st next t tame (t.adds s.node edges got)
          c ran in
      subst (Leaves st) (ok-injective e2) (
        record {
          known = c'.known;
          waiting = λ u x here tame_x. elim (c'.waiting u x here tame_x) [
            | inl p ↦ inl p
            | inr (inl done) ↦ inr (inl done)
            | inr (inr (at, _)) ↦ inr (
                inl (λ es has.
                  subst (All (λ e. Near f adj Tame next e.0))
                    (some-injective (sym got ∙ (ap (get_elem? adj) at ∙ has))) nears))
          ];
          heaped = c'.heaped;
        },
        stays,
      )

  visit-Leaves :
      (s : State) (st : Progress f) (r : Round f)
      → IsTame f adj Tame
      → IsCovered f adj Tame (λ u x. Matches f adj Tame u x s) st
      → Tame s.node (cost_of f s)
      → Near f adj Tame st s.node
      → visit f adj s st ≡ ok r
      → Leaves st r
  unfolding visit
  visit-Leaves s st r t c tame (d, got, tame_d) e = elim (Bool-cases (s.node == 1)) [
    | inl end ↦
        let at : s.node ≡ 1 = ground arith in
        subst (Leaves st) (ok-injective (rw end at e))
          (λ u path near chain. subst (Near f adj Tame st) at (d, got, tame_d))
    | inr on ↦ elim (Bool-cases (f.less d (cost_of f s))) [
      | inl late ↦ subst (Leaves st) (ok-injective (rw (on, got, late) at e)) (
        record {
          known = c.known;
          waiting = λ u x here tame_x. elim (c.waiting u x here tame_x) [
            | inl p ↦ inl p
            | inr (inl done) ↦ inr (inl done)
            | inr (inr (at, cost)) ↦
                let same : d ≡ x = some-injective (sym got ∙ (ap (get_elem? st.dist) at ∙ here)) in
                absurd (
                  true-false (
                    sym late
                    ∙ ((λ i. f.less (same i) (f.div (f.from_i64 (cost i)) f.nanos_per_second))
                        ∙ t.no_rise u x tame_x)))
          ];
          heaped = c.heaped;
        },
        λ v near. near,
      )
      | inr fresh ↦ follow-Leaves s st r t c tame (rw (on, got, fresh) at e)
    ]
  ]

  -- With an empty heap, every near node's edges lead to near nodes.
  empty_chain :
      (dist : List F) (prev : List (Option ℕ)) (u : ℕ) (path : List ℕ)
      → IsCovered f adj Tame Free (record { dist = dist; prev = prev; heap = [] })
      → Near f adj Tame (record { dist = dist; prev = prev; heap = [] }) u
      → IsChain adj u path
      → Near f adj Tame (record { dist = dist; prev = prev; heap = [] }) 1
  empty_chain dist prev u [] c near at_end =
      subst (Near f adj Tame (record { dist = dist; prev = prev; heap = [] })) at_end near
  empty_chain dist prev u (v ∷ path) c (x, got, tame) ((edges, i, w, has, listed), chain) =
      elim (c.waiting u x got tame) [
        | inl p ↦ elim p [ ]
        | inr (inl done) ↦
            empty_chain dist prev v path c
              (All-get_elem?
                (λ e. Near f adj Tame (record { dist = dist; prev = prev; heap = [] }) e.0) edges i
                (done edges has) listed)
              chain
        | inr (inr busy) ↦ absurd busy
      ]

  round-Leaves :
      (dist : List F) (prev : List (Option ℕ)) (heap : List State) (r : Round f)
      → IsTame f adj Tame
      → IsCovered f adj Tame Free (record { dist = dist; prev = prev; heap = heap })
      → round f adj (record { dist = dist; prev = prev; heap = heap }) ≡ ok r
      → Leaves (record { dist = dist; prev = prev; heap = heap }) r
  unfolding round
  round-Leaves dist prev [] r t c e =
      subst (Leaves (record { dist = dist; prev = prev; heap = [] })) (ok-injective e)
        (λ u path near chain. empty_chain dist prev u path c near chain)
  round-Leaves dist prev (s ∷ heap) (goes next) t c e =
      let (c1, tame, near) = popped-IsCovered dist prev s heap c in
      visit-Leaves _ _ (goes next) t c1 tame near e
  round-Leaves dist prev (s ∷ heap) (stopped last) t c e =
      let (c1, tame, near) = popped-IsCovered dist prev s heap c in
      visit-Leaves _ _ (stopped last) t c1 tame near e

  -- A search that ends has a first round, which ends it or goes on.
  first_round :
      (fuel : ℕ) (st last : Progress f) (r : Result (Round f))
      → round f adj st ≡ r
      → elim r [
        | ok (stopped end) ↦ some (ok end)
        | ok (goes next) ↦ search f fuel adj next
        | err why ↦ some (err why)
        | panic ↦ some panic
      ]
        ≡ some (ok last)
      → (round f adj st ≡ ok (stopped last))
        ⊎ ((next : Progress f) × (round f adj st ≡ ok (goes next))
            × (search f fuel adj next ≡ some (ok last)))
  first_round fuel st last (ok (stopped end)) ran done =
      inl (ran ∙ ap (λ s. ok (stopped s)) (ok-injective (some-injective done)))
  first_round fuel st last (ok (goes next)) ran done = inr (next, ran, done)
  first_round fuel st last (err why) ran done = cc done
  first_round fuel st last panic ran done = cc done

  -- Where the search ends, it has come to the end of every chain from a near node.
  search_reaches :
      (fuel : ℕ) (st last : Progress f) (u : ℕ) (path : List ℕ)
      → IsTame f adj Tame
      → IsCovered f adj Tame Free st
      → Near f adj Tame st u
      → IsChain adj u path
      → search f fuel adj st ≡ some (ok last)
      → Near f adj Tame last 1
  unfolding search
  search_reaches zero st last u path t c near chain e = absurd (none-some e)
  search_reaches (suc fuel) st last u path t c near chain e =
      elim (first_round fuel st last (round f adj st) refl e) [
        | inl ran ↦ round-Leaves st.dist st.prev st.heap (stopped last) t c ran u path near chain
        | inr (next, ran, rest) ↦
            let (c', stays) = round-Leaves st.dist st.prev st.heap (goes next) t c ran in
            search_reaches fuel next last u path t c' (stays u near) chain rest
      ]

  -- From a start at node 0, with every other distance infinite.
  pub search-Near :
      (n fuel : ℕ) (last : Progress f) (path : List ℕ)
      → IsTame f adj Tame
      → 0 < n
      → f.equal f.infinity f.infinity ≡ true
      → Tame 0 f.zero
      → cost_to_nanos f f.zero ≡ pos 0
      → IsChain adj 0 path
      → search f fuel adj (start n) ≡ some (ok last)
      → Near f adj Tame last 1
  search-Near n fuel last path t some_nodes refl_inf tame zero_cost chain e =
      search_reaches fuel (start n) last 0 path t covered near chain e
    where
      inside : 0 < length (replicate n f.infinity)
      inside = omega (arith, some_nodes, length-replicate n f.infinity)

      at_zero : get_elem? (set (replicate n f.infinity) 0 f.zero) 0 ≡ some f.zero
      at_zero = get_elem?-set (replicate n f.infinity) 0 0 f.zero inside

      near : Near f adj Tame (start n) 0
      near = (f.zero, at_zero, tame)

      other_infinite :
          (v : ℕ) (x : F)
          → (0 == v) ≡ false
          → get_elem? (set (replicate n f.infinity) 0 f.zero) v ≡ some x
          → x ≡ f.infinity
      other_infinite v x other got =
          get_elem?-replicate n v f.infinity x
            (ground (arith, got, get_elem?-set (replicate n f.infinity) 0 v f.zero inside))

      at_start :
          (v : ℕ) (x : F)
          → (0 == v) ≡ true
          → get_elem? (set (replicate n f.infinity) 0 f.zero) v ≡ some x
          → f.zero ≡ x
      at_start v x same got =
          ground (arith, got, get_elem?-set (replicate n f.infinity) 0 v f.zero inside)

      covered : IsCovered f adj Tame Free (start n)
      covered = record {
        known = λ v x got. elim (Bool-cases (0 == v)) [
          | inl same ↦
              inr
                (subst (λ w. Tame w x) (ground arith) (subst (Tame 0) (at_start v x same got) tame))
          | inr other ↦ inl (other_infinite v x other got)
        ];
        waiting = λ u x got tame_x. elim (Bool-cases (0 == u)) [
          | inl same ↦
              inl (inl (ground arith, sym zero_cost ∙ ap (cost_to_nanos f) (at_start u x same got)))
          | inr other ↦
              let is_inf = other_infinite u x other got in
              absurd (
                true-false (
                  sym refl_inf
                  ∙ (ap (λ y. f.equal y f.infinity) (sym is_inf) ∙ t.unequal u x tame_x)))
        ];
        heaped = (
          (
            subst (λ c. Tame 0 (cost_of f (record { cost_ns = c; node = 0 }))) zero_cost
                (t.read_back 0 f.zero tame),
            near,
          ),
          tt,
        );
      }
