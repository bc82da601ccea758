-- ===== src/P2p/Sequence/Latency/Found.antt =====
-- What `dijkstra_min_latency` returns (src/p2p/src/sequence_manager.rs).
use inference_mesh.Base.{
  ℕ, zero, suc, ◌+◌, ◌-◌, ◌<◌, ◌≤◌, ◌≡◌, refl, sym, ap, ◌∙◌, subst, ◌⊎◌, inl, inr, Bool, true,
  false, ◌||◌, ◌==◌, Bool-cases, Option, none, some, List, [], ◌∷◌, length, get_elem?, get_elem?_in,
  set, length-set, get_elem?-set, replicate, length-replicate, get_elem?-replicate, All, All-map,
  Result, ok, arith,
}
use inference_mesh.Base.HashMap
use inference_mesh.P2p.ProviderCache.{is_empty}
use inference_mesh.P2p.Sequence.{Spans, spans_containing_block}
use inference_mesh.P2p.Sequence.Containing.{
  covers, get_elem?-spans_containing_block, length-spans_containing_block,
}
use inference_mesh.P2p.Sequence.Search.{F64, Progress, search}
use inference_mesh.P2p.Sequence.Search.Links.{
  rounds, IsLayered, IsLinked, IsPath, Reached, search_lem, path_back_lem,
}
use inference_mesh.P2p.Sequence.Graph.{Key, Nodes, Latencies}
use inference_mesh.P2p.Sequence.Graph.Numbers.{Has, IsNumbered, RowsHave, add_rows_lem}
use inference_mesh.P2p.Sequence.Graph.Layers.{
  rank, rank_by, IsGood, rank_start, rank_end, link_first_lem, link_last_lem, link_rows_lem,
}
use inference_mesh.P2p.Sequence.Latency.{
  row_at, edge_count, collect, add_block, number_nodes, build_edges, start_progress, read_path,
  run_search, dijkstra_min_latency,
}
use inference_mesh.P2p.Sequence.Latency.Route.{Route, add_block-Route, retain-Route}
use inference_mesh.P2p.Sequence.Latency.Rows.{
  EndsBy, Passing, All-keep, table-AreRows, IsHosted, RowsHave-IsHosted, found_at, rows_prepared,
}

is_empty_lem {ℓ} : {A : Type ℓ} (xs : List A) → is_empty xs ≡ false → 0 < length xs
is_empty_lem [] h = cc
is_empty_lem (x ∷ xs) h = omega arith

edge_count-le {ℓ} : {E : Type ℓ} (adj : List (List E)) → All (λ es. length es ≤ edge_count adj) adj
edge_count-le [] = tt
edge_count-le (es ∷ adj) = (omega arith, All-map adj (λ is h. omega (arith, h)) (edge_count-le adj))

module _ (f : F64) {P : Type 0} (same : Discrete P) (rtts : Latencies P f.F) where
  open f use {F}

  -- What the code needs of `f64`: infinity equals itself.
  abbrev pub IsReflexive : Type 0
  IsReflexive = f.equal f.infinity f.infinity ≡ true

  module _ (spans : Spans P F) (n : ℕ) (before after : P) where
    abbrev table : List (Spans P F)
    table = spans_containing_block spans n

    unfoldable pub ns : Nodes P
    ns = number_nodes f same rtts before after n table

    abbrev end : Key P
    end = (after, n)

    pub numbered :
        IsNumbered same end (IsHosted spans n) ns
        × RowsHave same end (IsHosted spans n) (Has same ns) 0 table
    unfolding ns number_nodes
    numbered =
        let first : Nodes P = record { node_ids = []; nodes = (before, 0) ∷ (after, n) ∷ [] } in
        let num : IsNumbered same end (IsHosted spans n) first = record {
          two = omega arith;
          last = refl;
          found = λ key i e. absurd (unfold HashMap.get in ground arith);
          holds = holds;
        } in
        let (a, b, _) = add_rows_lem same end (IsHosted spans n) 0 table first num (
          RowsHave-IsHosted spans same end n 0 table
            (omega (arith, length-spans_containing_block spans n)) (table-AreRows spans n)) in
        (a, b)
      where
        holds :
            (key : Key P) (i : ℕ)
            → 2 ≤ i
            → get_elem? ((before, 0) ∷ (after, n) ∷ []) i ≡ some key
            → IsHosted spans n key
        holds key zero late e = absurd (omega arith)
        holds key (suc zero) late e = absurd (omega arith)
        holds key (suc (suc i)) late e = cc

    passing : (c : ℕ) → c < n → Passing (covers c) (λ s. Has same ns (s.peer_id, c)) spans
    passing c h =
        let at : 0 + c ≡ c = omega arith in
        subst (λ k. Passing (covers k) (λ s. Has same ns (s.peer_id, k)) spans) at
          (found_at spans same end n ns 0 c table
            (omega (arith, h, length-spans_containing_block spans n)) (table-AreRows spans n)
            numbered.1)

    rows_have : (c : ℕ) → c < n → All (λ s. Has same ns (s.peer_id, c)) (row_at same table c)
    rows_have c h =
        rw (get_elem?-spans_containing_block spans n c h).1
          (All-keep (covers c) (λ s. Has same ns (s.peer_id, c)) spans (passing c h))

    -- All edges are made, and all are good.
    pub edges_lem :
        EndsBy n spans
        → 0 < n
        → (adj : List (List (ℕ × F))) × (build_edges f same rtts ns n table ≡ ok adj)
          × IsGood f same rtts ns n adj
    unfolding build_edges
    edges_lem ends some_block =
        let num = numbered.0 in
        let good : IsGood f same rtts ns n (replicate (length ns.nodes) []) = record {
          sized = length-replicate (length ns.nodes) [];
          steps = λ u es e.
              let none_yet : es ≡ [] = get_elem?-replicate (length ns.nodes) u [] es e in
              rw none_yet tt;
        } in
        let last_block : suc (n - 1) ≡ n = omega arith in
        let (adj1, ran1, g1) =
          link_first_lem f same rtts ns n end (IsHosted spans n) num refl (row_at same table 0)
            (replicate (length ns.nodes) []) good (rows_have 0 some_block) in
        let (adj2, ran2, g2) =
          link_last_lem f same rtts ns n end (IsHosted spans n) num refl (n - 1)
            (row_at same table (n - 1)) adj1 last_block g1 (rows_have (n - 1) (omega arith)) in
        let (adj3, ran3, g3) =
          link_rows_lem f same rtts ns n end (IsHosted spans n) num refl 0 table adj2
            (omega (arith, length-spans_containing_block spans n)) g2
            (rows_prepared f same rtts ns n end (IsHosted spans n) num refl spans 0 table ends
              passing (omega (arith, length-spans_containing_block spans n))
              (table-AreRows spans n)) in
        (adj3, rw (ran1, build_edges) (rw (ran2, build_edges) ran3), g3)

    abbrev rank_n : ℕ → ℕ
    rank_n v = rank n ns.nodes v

    abbrev size : ℕ
    size = length ns.nodes

    rank_n-le : (v : ℕ) → rank_n v ≤ n + 1
    rank_n-le v = by_key v (get_elem? ns.nodes v)
      where
        by_key : (v : ℕ) (o : Option (Key P)) → rank_by n v o ≤ n + 1
        by_key v none = omega arith
        by_key zero (some key) = omega arith
        by_key (suc v) (some key) = omega arith

    rank_at : (v : ℕ) (key : Key P) → 2 ≤ v → get_elem? ns.nodes v ≡ some key → rank_n v ≡ n - key.1
    rank_at zero key late e = absurd (omega arith)
    rank_at (suc v) key late e = rw e refl

    start-IsLinked :
        (adj : List (List (ℕ × F))) (d : ℕ)
        → IsReflexive
        → IsLinked f adj size d rank_n (start_progress f same rtts size)
    start-IsLinked adj d refl_inf = record {
      sized_dist =
          length-set (replicate size f.infinity) 0 f.zero ∙ length-replicate size f.infinity;
      sized_prev = length-replicate size none;
      heaped = ((omega (arith, numbered.0.two), inl refl), tt);
      linked = λ v p e. absurd (let no_link = get_elem?-replicate size v none (some p) e in cc);
      near = near;
    }
      where
        near :
            (v : ℕ) (x : F)
            → get_elem? (set (replicate size f.infinity) 0 f.zero) v ≡ some x
            → f.equal x f.infinity ≡ false
            → Reached f adj size d rank_n (replicate size none) v
        near zero x e far = inl refl
        near (suc v) x e far =
            let at : get_elem? (replicate size f.infinity) (suc v) ≡ some x = ground (
              arith,
              e,
              get_elem?-set (replicate size f.infinity) 0 (suc v) f.zero
                  (omega (arith, numbered.0.two, length-replicate size f.infinity)),
            ) in
            let is_inf : x ≡ f.infinity = get_elem?-replicate size (suc v) f.infinity x at in
            absurd (
              let far_inf : f.equal f.infinity f.infinity ≡ false = rw is_inf at far in
              ground (arith, far_inf, refl_inf))

    collect_step :
        (v : ℕ) (key : Key P) (path : List ℕ) (xs ys : Spans P F)
        → (v == 1) ≡ false
        → get_elem? ns.nodes v ≡ some key
        → add_block same f.zero table key xs ≡ ok ys
        → collect same f.zero ns.nodes table (v ∷ path) xs
          ≡ collect same f.zero ns.nodes table path ys
    unfolding collect
    collect_step v key path xs ys inner got added = rw (inner, got, added) refl

    collect_lem :
        (adj : List (List (ℕ × F))) (d u done : ℕ) (path : List ℕ) (xs : Spans P F)
        → IsPath f adj size d rank_n u path
        → rank_n u + done ≡ n + 1
        → done ≤ n
        → Route spans 0 done xs
        → (ys : Spans P F) × (collect same f.zero ns.nodes table path xs ≡ ok ys)
          × Route spans 0 n ys
    unfolding collect
    collect_lem adj d u done [] xs p e low r = absurd (
        omega (
          arith,
          e,
          low,
          rank_end f same rtts ns n end (IsHosted spans n) numbered.0 refl,
          ap rank_n p,
        ))
    collect_lem adj d u done (v ∷ path) xs (step, p) e low r = elim (Bool-cases (v == 1)) [
      | inl is_end ↦
          let at : v ≡ 1 = ground arith in
          let whole : done ≡ n = omega (
            arith,
            e,
            step.0,
            ap rank_n at,
            rank_end f same rtts ns n end (IsHosted spans n) numbered.0 refl,
          ) in
          (xs, rw is_end refl, subst (λ k. Route spans 0 k xs) whole r)
      | inr inner ↦
          let ((p_v, b), got) = get_elem?_in ns.nodes v step.1 in
          let late : 2 ≤ v = not_start v inner step.0 in
          let (b_lt, hosts) = numbered.0.holds (p_v, b) v late got in
          let at = rank_at v (p_v, b) late got in
          let here : b ≡ done = omega (arith, at, e, step.0, b_lt) in
          let (ys, added, r1) =
            add_block-Route same f.zero spans table 0 b p_v xs
              (omega (arith, b_lt, length-spans_containing_block spans n)) hosts
              (subst (λ k. Route spans 0 k xs) (sym here) r) in
          let (zs, ran, r2) =
            collect_lem adj d v (b + 1) path ys p (omega (arith, e, step.0, here))
              (omega (arith, b_lt)) r1 in
          (zs, collect_step v (p_v, b) path xs ys inner got added ∙ ran, r2)
    ]
      where
        not_start : (v : ℕ) → (v == 1) ≡ false → rank_n u ≡ suc (rank_n v) → 2 ≤ v
        not_start zero inner s = absurd (
            omega (arith, s, e, rank_start f same rtts ns n end (IsHosted spans n) numbered.0 refl))
        not_start (suc zero) inner s = absurd (ground arith)
        not_start (suc (suc v)) inner s = omega arith

    -- What the function may return: nothing, or a route from the first block to behind the last.
    abbrev Answers : Option (Result (Option (Spans P F))) → Type 0
    Answers r =
        (r ≡ some (ok none))
        ⊎ ((route : Spans P F) × (r ≡ some (ok (some route))) × Route spans 0 n route)

    ranked : rank_n 0 ≡ n + 1
    ranked = rank_start f same rtts ns n end (IsHosted spans n) numbered.0 refl

    -- Once the last node has a distance, there is a route.
    pub read_path_found :
        (adj : List (List (ℕ × F))) (d : ℕ) (st : Progress f) (x : F)
        → IsLinked f adj size d rank_n st
        → get_elem? st.dist 1 ≡ some x
        → f.equal x f.infinity ≡ false
        → (route : Spans P F) × (read_path f same rtts ns n table st ≡ some (ok (some route)))
          × Route spans 0 n route
    unfolding read_path
    read_path_found adj d st x l got reached =
        let (whole, back, p) =
          path_back_lem f adj size d rank_n (n + 2) 1 [] st l (omega (arith, numbered.0.two))
            (λ v. omega (arith, rank_n-le v, ranked)) (l.near 1 x got reached) refl
            (omega (arith, ranked)) in
        let (route, collected, r) =
          collect_lem adj d 0 0 whole [] p (omega (arith, ranked)) (omega arith) refl in
        (
          route,
          rw got
              (rw reached (rw back (rw collected (rw (retain-Route same spans 0 n route r) refl)))),
          r,
        )

    read_path_lem :
        (adj : List (List (ℕ × F))) (d : ℕ) (st : Progress f)
        → IsLinked f adj size d rank_n st
        → Answers (read_path f same rtts ns n table st)
    unfolding read_path
    read_path_lem adj d st l =
        let (x, got) = get_elem?_in st.dist 1 (omega (arith, l.sized_dist, numbered.0.two)) in
        elim (Bool-cases (f.equal x f.infinity)) [
          | inl never ↦ inl (rw got (rw never refl))
          | inr reached ↦ inr (read_path_found adj d st x l got reached)
        ]

    -- The search ends.
    pub searched :
        (adj : List (List (ℕ × F)))
        → IsReflexive
        → IsGood f same rtts ns n adj
        → (st : Progress f) × (search f
              (rounds (edge_count adj) (n + 1) + 1)
              adj
              (start_progress f same rtts size)
            ≡ some (ok st))
          × IsLinked f adj size (edge_count adj) rank_n st
    searched adj refl_inf g =
        let d = edge_count adj in
        let layered : IsLayered f adj size d rank_n = record {
          sized = g.sized;
          few = edge_count-le adj;
          steps = g.steps;
        } in
        let enough : rounds d (rank_n 0) + 0 < rounds d (n + 1) + 1 = rw ranked (omega arith) in
        search_lem f adj size d rank_n (rounds d (n + 1) + 1) (start_progress f same rtts size)
          layered (start-IsLinked adj d refl_inf) enough

    run_search_lem :
        (adj : List (List (ℕ × F)))
        → IsReflexive
        → IsGood f same rtts ns n adj
        → Answers (run_search f same rtts ns n table adj)
    unfolding run_search
    run_search_lem adj refl_inf g =
        let (st, ran, l) = searched adj refl_inf g in
        rw ran (read_path_lem adj (edge_count adj) st l)

    -- Where no span ends behind the last block, and f64's infinity equals itself, the search always
    -- ends and never panics. It returns nothing, or pieces that follow one another from the first block to behind the last, none of
    -- them empty, and whose blocks are all held by the piece's peer according to the given spans.
    pub dijkstra_min_latency_lem :
        EndsBy n spans
        → IsReflexive
        → (dijkstra_min_latency f same rtts before after spans n ≡ some (ok none))
          ⊎ ((route : Spans P F) × (dijkstra_min_latency f same rtts before after spans n
                ≡ some (ok (some route)))
              × Route spans 0 n route)
    unfolding dijkstra_min_latency ns
    dijkstra_min_latency_lem ends refl_inf = elim (Bool-cases closed) [
      | inl shut ↦ inl (rw shut refl)
      | inr open_ends ↦
          let (adj, built, g) = edges_lem ends (some_block open_ends) in
          rw open_ends (rw built (run_search_lem adj refl_inf g))
    ]
      where
        closed : Bool
        closed =
            is_empty table
            || (is_empty (row_at same table 0) || is_empty (row_at same table (n - 1)))

        some_block : closed ≡ false → 0 < n
        some_block h =
            omega
              (arith, is_empty_lem table (ground (arith, h)), length-spans_containing_block spans n)
