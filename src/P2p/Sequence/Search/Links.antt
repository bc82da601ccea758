-- ===== src/P2p/Sequence/Search/Links.antt =====
-- The search ends, without a panic, and its links lead back to where it began
-- (src/p2p/src/sequence_manager.rs).
use inference_mesh.Base.{
  ℕ, zero, suc, ◌+◌, ◌-◌, ◌*◌, ◌<◌, ◌≤◌, ◌≡◌, refl, sym, ◌∙◌, subst, ◌⊎◌, inl, inr, false, ◌==◌,
  Bool-cases, Option, none, some, List, [], ◌∷◌, length, get_elem?, get_elem?_in, set, length-set,
  get_elem?-set, All, All-get_elem?, All-map, Result, ok, arith,
}
use inference_mesh.P2p.Sequence.Search.{
  F64, State, above, pop_from, Progress, Round, stopped, goes, cost_of, improve, relax, follow,
  visit, round, search, path_back,
}

abbrev pub times : ℕ → ℕ → ℕ
times zero w = 0
times (suc k) w = w + times k w

times_mono : (k d w : ℕ) → k ≤ d → times k w ≤ times d w
times_mono zero d w h = omega arith
times_mono (suc k) zero w h = elim h [ ]
times_mono (suc k) (suc d) w h = omega (arith, times_mono k d w (omega arith))

-- How many rounds a state can lead to, if a node has at most `d` edges and is so many edges away from
-- the end.
abbrev pub rounds : ℕ → ℕ → ℕ
rounds d zero = 1
rounds d (suc r) = 1 + d * rounds d r

times_lem : (k w : ℕ) → times k w ≡ k * w
times_lem zero w = omega arith
times_lem (suc k) w = omega (arith, times_lem k w)

rounds_pos : (d r : ℕ) → 0 < rounds d r
rounds_pos d zero = omega arith
rounds_pos d (suc r) = omega arith

module _ (f : F64) (adj : List (List (ℕ × f.F))) (n d : ℕ) (rank : ℕ → ℕ) where
  open f use {F}

  -- An edge leads one step closer to the end, to a node that there is.
  abbrev pub IsStep : ℕ → ℕ → Type 0
  IsStep u v = (rank u ≡ suc (rank v)) × (v < n)

  -- Each node has its edges, few of them, and all are steps.
  pub record IsLayered : Type 0 where
    pub sized : length adj ≡ n
    pub few : All (λ es. length es ≤ d) adj
    pub steps : (u : ℕ) (es : List (ℕ × F)) → get_elem? adj u ≡ some es → All (λ e. IsStep u e.0) es

  abbrev pub Reached : List (Option ℕ) → ℕ → Type 0
  Reached prev v = (v ≡ 0) ⊎ ((p : ℕ) × (get_elem? prev v ≡ some (some p)))

  abbrev pub IsHeaped : List (Option ℕ) → State → Type 0
  IsHeaped prev s = (s.node < n) × Reached prev s.node

  pub record IsLinked (st : Progress f) : Type 0 where
    pub sized_dist : length st.dist ≡ n
    pub sized_prev : length st.prev ≡ n
    pub heaped : All (IsHeaped st.prev) st.heap
    pub linked : (v p : ℕ) → get_elem? st.prev v ≡ some (some p) → IsStep p v × Reached st.prev p
    pub near :
        (v : ℕ) (x : F)
        → get_elem? st.dist v ≡ some x
        → f.equal x f.infinity ≡ false
        → Reached st.prev v

  abbrev pub potential : List State → ℕ
  potential [] = 0
  potential (s ∷ heap) = rounds d (rank s.node) + potential heap

  Reached-set :
      (prev : List (Option ℕ)) (u next v : ℕ)
      → next < length prev
      → Reached prev v
      → Reached (set prev next (some u)) v
  Reached-set prev u next v h (inl e) = inl e
  Reached-set prev u next v h (inr (p, e)) = elim (Bool-cases (next == v)) [
    | inl same ↦ inr (u, rw (get_elem?-set prev next v (some u) h, same) refl)
    | inr other ↦ inr (p, rw (get_elem?-set prev next v (some u) h, other) e)
  ]

  set-linked :
      (prev : List (Option ℕ)) (u next v p : ℕ)
      → next < length prev
      → ((v p : ℕ) → get_elem? prev v ≡ some (some p) → IsStep p v × Reached prev p)
      → IsStep u next
      → Reached prev u
      → get_elem? (set prev next (some u)) v ≡ some (some p)
      → IsStep p v × Reached (set prev next (some u)) p
  set-linked prev u next v p h linked step r e = elim (Bool-cases (next == v)) [
    | inl same ↦
        let is_u : u ≡ p = ground (arith, get_elem?-set prev next v (some u) h) in
        let is_next : next ≡ v = ground arith in
        subst (λ q. IsStep q v × Reached (set prev next (some u)) q) is_u
          (subst (λ w. IsStep u w) is_next step, Reached-set prev u next u h r)
    | inr other ↦
        let (step_v, r_p) = linked v p (ground (arith, get_elem?-set prev next v (some u) h)) in
        (step_v, Reached-set prev u next p h r_p)
  ]

  improve-IsLinked :
      (st : Progress f) (u next : ℕ) (x : F)
      → IsLinked st
      → Reached st.prev u
      → IsStep u next
      → IsLinked (improve f u next x st)
        × Reached (improve f u next x st).prev u
        × (potential (improve f u next x st).heap ≡ rounds d (rank next) + potential st.heap)
  unfolding improve
  improve-IsLinked st u next x l r step =
      let inside : next < length st.prev = omega (arith, l.sized_prev, step.1) in
      let inside_dist : next < length st.dist = omega (arith, l.sized_dist, step.1) in
      (
        record {
          sized_dist = length-set st.dist next x ∙ l.sized_dist;
          sized_prev = length-set st.prev next (some u) ∙ l.sized_prev;
          heaped = (
            (step.1, inr (u, rw (get_elem?-set st.prev next next (some u) inside) (ground arith))),
            All-map st.heap (λ s h. (h.0, Reached-set st.prev u next s.node inside h.1)) l.heaped,
          );
          linked = λ v p e. set-linked st.prev u next v p inside l.linked step r e;
          near = λ v y e far. elim (Bool-cases (next == v)) [
            | inl same ↦ inr (u, rw (get_elem?-set st.prev next v (some u) inside, same) refl)
            | inr other ↦
                Reached-set st.prev u next v inside
                  (l.near v y (ground (arith, get_elem?-set st.dist next v x inside_dist)) far)
          ];
        },
        Reached-set st.prev u next u inside r,
        refl,
      )

  relax_lem :
      (u w : ℕ) (cost : F) (edges : List (ℕ × F)) (st : Progress f)
      → IsLinked st
      → Reached st.prev u
      → All (λ e. IsStep u e.0) edges
      → rank u ≡ suc w
      → (st' : Progress f) × (relax f u cost edges st ≡ ok st')
        × IsLinked st'
        × (potential st'.heap ≤ potential st.heap + times (length edges) (rounds d w))
  unfolding relax
  relax_lem u w cost [] st l r steps e = (st, refl, l, omega arith)
  relax_lem u w cost ((next, weight) ∷ edges) st l r (step, steps) e =
      let (x, got) = get_elem?_in st.dist next (omega (arith, l.sized_dist, step.1)) in
      let same_rank : w ≡ rank next = omega (arith, step.0, e) in
      elim (Bool-cases (f.less (f.add cost weight) x)) [
        | inl closer ↦
            let (l1, r1, grown) = improve-IsLinked st u next (f.add cost weight) l r step in
            let (st', ran, l', bound) =
              relax_lem u w cost edges (improve f u next (f.add cost weight) st) l1 r1 steps e in
            (
              st',
              rw (got, relax) (rw closer ran),
              l',
              rw same_rank (omega (arith, rw same_rank at bound, grown)),
            )
        | inr no_closer ↦
            let (st', ran, l', bound) = relax_lem u w cost edges st l r steps e in
            (st', rw (got, relax) (rw no_closer ran), l', omega (arith, bound))
      ]

  -- What was popped, and what is left, is what there was.
  pop_from_lem :
      (prev : List (Option ℕ)) (best : State) (heap : List State)
      → IsHeaped prev best
      → All (IsHeaped prev) heap
      → IsHeaped prev (pop_from best heap).0
        × All (IsHeaped prev) (pop_from best heap).1
        × (rounds d (rank (pop_from best heap).0.node) + potential (pop_from best heap).1
            ≡ rounds d (rank best.node) + potential heap)
  unfolding pop_from
  pop_from_lem prev best [] h k = (h, tt, refl)
  pop_from_lem prev best (s ∷ heap) h (hs, k) = elim (Bool-cases (above s best)) [
    | inl wins ↦
        let (a, b, c) = pop_from_lem prev s heap hs k in rw wins (a, (h, b), omega (arith, c))
    | inr loses ↦
        let (a, b, c) = pop_from_lem prev best heap h k in rw loses (a, (hs, b), omega (arith, c))
  ]

  -- After a round either the search is over, or its states can lead to fewer rounds than before.
  abbrev Goes : Progress f → Result (Round f) → Type 0
  Goes st r =
      ((st' : Progress f) × (r ≡ ok (stopped st')) × IsLinked st')
      ⊎ ((st' : Progress f) × (r ≡ ok (goes st'))
          × IsLinked st'
          × (potential st'.heap < potential st.heap))

  abbrev popped : Progress f → List State → Progress f
  popped st heap = record st { heap = heap }

  follow_lem :
      (s : State) (st : Progress f)
      → IsLayered
      → IsLinked st
      → IsHeaped st.prev s
      → (st' : Progress f) × (follow f adj s st ≡ ok (goes st'))
        × IsLinked st'
        × (potential st'.heap < rounds d (rank s.node) + potential st.heap)
  unfolding follow
  follow_lem s st layered l h =
      let (edges, got) = get_elem?_in adj s.node (omega (arith, layered.sized, h.0)) in
      let steps = layered.steps s.node edges got in
      let narrow = All-get_elem? (λ es. length es ≤ d) adj s.node layered.few got in
      out (rank s.node) refl edges got steps narrow
    where
      out :
          (r : ℕ)
          → r ≡ rank s.node
          → (edges : List (ℕ × F)) → get_elem? adj s.node ≡ some edges
          → All (λ e. IsStep s.node e.0) edges
          → length edges ≤ d
          → (st' : Progress f) × (follow f adj s st ≡ ok (goes st'))
            × IsLinked st'
            × (potential st'.heap < rounds d (rank s.node) + potential st.heap)
      out zero e [] got steps narrow =
          (st, rw (got, follow) (unfold relax in refl), l, rw (sym e) (omega arith))
      out zero e (edge ∷ edges) got (step, steps) narrow = absurd (omega (arith, e, step.0))
      out (suc w) e edges got steps narrow =
          let (st', ran, l', bound) =
            relax_lem s.node w (cost_of f s) edges st l h.1 steps (sym e) in
          (
            st',
            rw (got, follow) (rw ran refl),
            l',
            rw (sym e) (
                omega (
                  arith,
                  bound,
                  times_mono (length edges) d (rounds d w) narrow,
                  times_lem d (rounds d w),
                )),
          )

  visit_lem :
      (s : State) (st : Progress f)
      → IsLayered
      → IsLinked st
      → IsHeaped st.prev s
      → ((visit f adj s st ≡ ok (stopped st)))
        ⊎ ((st' : Progress f) × (visit f adj s st ≡ ok (goes st'))
            × IsLinked st'
            × (potential st'.heap < rounds d (rank s.node) + potential st.heap))
  unfolding visit
  visit_lem s st layered l h =
      let (x, got) = get_elem?_in st.dist s.node (omega (arith, l.sized_dist, h.0)) in
      elim (Bool-cases (s.node == 1)) [
        | inl end ↦ inl (rw end refl)
        | inr on ↦ elim (Bool-cases (f.less x (cost_of f s))) [
          | inl late ↦
              inr (st, rw (on, got, late) refl, l, omega (arith, rounds_pos d (rank s.node)))
          | inr fresh ↦
              let (st', ran, l', bound) = follow_lem s st layered l h in
              inr (st', rw (on, got, fresh) ran, l', bound)
        ]
      ]

  round_lem :
      (dist : List F) (prev : List (Option ℕ)) (heap : List State)
      → IsLayered
      → IsLinked (record { dist = dist; prev = prev; heap = heap })
      → Goes
          (record { dist = dist; prev = prev; heap = heap })
          (round f adj (record { dist = dist; prev = prev; heap = heap }))
  unfolding round
  round_lem dist prev [] layered l = inl (record { dist = dist; prev = prev; heap = [] }, refl, l)
  round_lem dist prev (s ∷ heap) layered l =
      let (first, rest, sum) = pop_from_lem prev s heap l.heaped.0 l.heaped.1 in
      let left : Progress f = record { dist = dist; prev = prev; heap = (pop_from s heap).1 } in
      let l1 : IsLinked left = record {
        sized_dist = l.sized_dist;
        sized_prev = l.sized_prev;
        heaped = rest;
        linked = l.linked;
        near = l.near;
      } in
      elim (visit_lem (pop_from s heap).0 left layered l1 first) [
        | inl ran ↦ inl (left, ran, l1)
        | inr (st', ran, l', bound) ↦ inr (st', ran, l', omega (arith, bound, sum))
      ]

  -- With more fuel than the states of the heap can lead to rounds, the search ends in linked progress.
  pub search_lem :
      (fuel : ℕ) (st : Progress f)
      → IsLayered
      → IsLinked st
      → potential st.heap < fuel
      → (st' : Progress f) × (search f fuel adj st ≡ some (ok st')) × IsLinked st'
  unfolding search
  search_lem zero st layered l h = elim h [ ]
  search_lem (suc fuel) st layered l h = elim (round_lem st.dist st.prev st.heap layered l) [
    | inl (st', ran, l') ↦ (st', rw (ran, search) refl, l')
    | inr (st1, ran, l1, less) ↦
        let (st', rest, l') = search_lem fuel st1 layered l1 (omega arith) in
        (st', rw (ran, search) rest, l')
  ]

  -- A path from a node to node 1.
  abbrev pub IsPath : ℕ → List ℕ → Type 0
  IsPath u [] = u ≡ 1
  IsPath u (v ∷ path) = IsStep u v × IsPath v path

  -- From a reached node the links lead back to node 0, in no more steps than the ranks allow.
  pub path_back_lem :
      (fuel cur : ℕ) (path : List ℕ) (st : Progress f)
      → IsLinked st
      → 0 < n
      → ((v : ℕ) → rank v ≤ rank 0)
      → Reached st.prev cur
      → IsPath cur path
      → rank 0 - rank cur < fuel
      → (whole : List ℕ) × (path_back fuel st.prev cur path ≡ some (ok whole)) × IsPath 0 whole
  unfolding path_back
  path_back_lem zero cur path st l some_node ranks r p h = elim h [ ]
  path_back_lem (suc fuel) cur path st l some_node ranks (inr (q, got)) p h =
      let (step, r') = l.linked cur q got in
      let (whole, ran, back) =
        path_back_lem fuel q (cur ∷ path) st l some_node ranks r' (step, p)
          (omega (arith, step.0, ranks q)) in
      (whole, rw (got, path_back) ran, back)
  path_back_lem (suc fuel) cur path st l some_node ranks (inl start) p h =
      let (link, got) = get_elem?_in st.prev 0 (omega (arith, l.sized_prev)) in
      (path, rw (start, got_start link got, path_back) refl, subst (λ v. IsPath v path) start p)
    where
      got_start :
          (link : Option ℕ) → get_elem? st.prev 0 ≡ some link → get_elem? st.prev 0 ≡ some none
      got_start none got = got
      got_start (some q) got = absurd (omega (arith, (l.linked 0 q got).0.0, ranks q))
