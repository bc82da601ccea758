-- ===== src/P2p/Sequence/Graph/Layers.antt =====
-- Every edge of the graph goes one block on, and no lookup panics
-- (src/p2p/src/sequence_manager.rs).
use inference_mesh.Base.{
  ℕ, zero, suc, ◌+◌, ◌-◌, ◌<◌, ◌≡◌, refl, ◌∙◌, subst, inl, inr, true, ◌&&◌, ◌==◌, ltb,
  if◌then◌else◌, Bool-cases, Option, none, some, List, [], ◌∷◌, ◌++◌, length, get_elem?,
  get_elem?_in, set, length-set, get_elem?-set, All, All-append, All-map, Result, ok, arith,
}
use inference_mesh.P2p.Types.{RemoteSpanInfo}
use inference_mesh.P2p.Sequence.{Spans}
use inference_mesh.P2p.Sequence.Search.{F64}
use inference_mesh.P2p.Sequence.Graph.{
  Key, Nodes, Latencies, push_edge, first_delay, last_delay, next_delay, same_delay, link_first,
  link_last, link_next, link_same, link_span, link_row, link_rows, first_row,
}
use inference_mesh.P2p.Sequence.Graph.Numbers.{id_of, Has, IsNumbered}

-- How many edges a node is away from node 1, by the block of its key.
abbrev pub rank_by : {P : Type 0} → ℕ → ℕ → Option (Key P) → ℕ
rank_by num_blocks i none = 0
rank_by num_blocks zero (some key) = num_blocks + 1
rank_by num_blocks (suc i) (some key) = num_blocks - key.1

abbrev pub rank : {P : Type 0} → ℕ → List (Key P) → ℕ → ℕ
rank num_blocks nodes i = rank_by num_blocks i (get_elem? nodes i)

module _ (f : F64) {P : Type 0} (same : Discrete P) (rtts : Latencies P f.F) (ns : Nodes P)
    (num_blocks : ℕ) where
  open f use {F}

  abbrev Step : ℕ → ℕ → Type 0
  Step u v = (rank num_blocks ns.nodes u ≡ suc (rank num_blocks ns.nodes v)) × (v < length ns.nodes)

  pub record IsGood (adj : List (List (ℕ × F))) : Type 0 where
    pub sized : length adj ≡ length ns.nodes
    pub steps : (u : ℕ) (es : List (ℕ × F)) → get_elem? adj u ≡ some es → All (λ e. Step u e.0) es

  -- The operation succeeds and keeps the edges good.
  abbrev pub Succeeds : Result (List (List (ℕ × F))) → Type 0
  Succeeds r = (adj : List (List (ℕ × F))) × (r ≡ ok adj) × IsGood adj

  push_edge_lem :
      (adj : List (List (ℕ × F))) (u v : ℕ) (w : F)
      → IsGood adj
      → u < length ns.nodes
      → Step u v
      → Succeeds (push_edge adj u (v, w))
  unfolding push_edge
  push_edge_lem adj u v w g inside step =
      let (es, got) = get_elem?_in adj u (omega (arith, g.sized)) in
      let new = es ++ ((v, w) ∷ []) in
      (
        set adj u new,
        rw got refl,
        record {
          sized = length-set adj u new ∙ g.sized;
          steps = λ i is e. elim (Bool-cases (u == i)) [
            | inl same_node ↦
                let at : u ≡ i = ground arith in
                let are : new ≡ is =
                  ground (arith, get_elem?-set adj u i new (omega (arith, g.sized))) in
                subst (λ j. All (λ e'. Step j e'.0) is) at
                  (subst (λ l. All (λ e'. Step u e'.0) l) are
                    (All-append (λ e'. Step u e'.0) es ((v, w) ∷ []) (g.steps u es got) (step, tt)))
            | inr other ↦
                g.steps i is (ground (arith, get_elem?-set adj u i new (omega (arith, g.sized))))
          ];
        },
      )

  module _ (end : Key P) (H : Key P → Type 0) (num : IsNumbered same end H ns)
      (end_lem : end.1 ≡ num_blocks) where
    -- The rank of a numbered key.
    pub rank_of :
        (key : Key P) (i : ℕ)
        → id_of same ns key ≡ some i
        → (rank num_blocks ns.nodes i ≡ num_blocks - key.1) × (i < length ns.nodes)
    rank_of key zero e = absurd (omega (arith, (num.found key zero e).1))
    rank_of key (suc i) e = let (at, late, inside) = num.found key (suc i) e in (rw at refl, inside)

    pub rank_start : rank num_blocks ns.nodes 0 ≡ num_blocks + 1
    rank_start = let (key, got) = get_elem?_in ns.nodes 0 (omega (arith, num.two)) in rw got refl

    pub rank_end : rank num_blocks ns.nodes 1 ≡ 0
    rank_end = rw num.last (omega (arith, end_lem))

    pub link_first_lem :
        (row : Spans P F) (adj : List (List (ℕ × F)))
        → IsGood adj
        → All (λ s. Has same ns (s.peer_id, 0)) row
        → Succeeds (link_first f same rtts ns row adj)
    unfolding link_first
    link_first_lem [] adj g h = (adj, refl, g)
    link_first_lem (s ∷ row) adj g ((i, e), h) =
        let (r, inside) = rank_of (s.peer_id, 0) i e in
        let step : Step 0 i = (omega (arith, r, rank_start), inside) in
        let (adj1, pushed, g1) =
          push_edge_lem adj 0 i (first_delay f same rtts s) g (omega (arith, num.two)) step in
        let (adj2, ran, g2) = link_first_lem row adj1 g1 h in
        (adj2, rw (e, link_first) (rw (pushed, link_first) ran), g2)

    pub link_last_lem :
        (last : ℕ) (row : Spans P F) (adj : List (List (ℕ × F)))
        → suc last ≡ num_blocks
        → IsGood adj
        → All (λ s. Has same ns (s.peer_id, last)) row
        → Succeeds (link_last f same rtts last ns row adj)
    unfolding link_last
    link_last_lem last [] adj l g h = (adj, refl, g)
    link_last_lem last (s ∷ row) adj l g ((i, e), h) =
        let (r, inside) = rank_of (s.peer_id, last) i e in
        let step : Step i 1 = (omega (arith, r, rank_end, l), omega (arith, num.two)) in
        let (adj1, pushed, g1) = push_edge_lem adj i 1 (last_delay f same rtts s) g inside step in
        let (adj2, ran, g2) = link_last_lem last row adj1 l g1 h in
        (adj2, rw (e, link_last) (rw (pushed, link_last) ran), g2)

    block_linked :
        (b i j : ℕ) (p q : P)
        → b < num_blocks
        → id_of same ns (p, b) ≡ some i
        → id_of same ns (q, b + 1) ≡ some j
        → Step i j × (i < length ns.nodes)
    block_linked b i j p q h e k =
        let (ri, inside) = rank_of (p, b) i e in
        let (rj, inside') = rank_of (q, b + 1) j k in ((omega (arith, ri, rj), inside'), inside)

    link_next_lem :
        (b : ℕ) (s : RemoteSpanInfo P F) (row : Spans P F) (adj : List (List (ℕ × F)))
        → b < num_blocks
        → IsGood adj
        → Has same ns (s.peer_id, b)
        → All (λ t. Has same ns (t.peer_id, b + 1)) row
        → Succeeds (link_next f same rtts ns b s row adj)
    unfolding link_next
    link_next_lem b s [] adj h g has hs = (adj, refl, g)
    link_next_lem b s (t ∷ row) adj h g (i, e) ((j, k), hs) =
        let (step, inside) = block_linked b i j s.peer_id t.peer_id h e k in
        let (adj1, pushed, g1) = push_edge_lem adj i j (next_delay f same rtts s t) g inside step in
        let (adj2, ran, g2) = link_next_lem b s row adj1 h g1 (i, e) hs in
        (adj2, rw (e, link_next) (rw (k, link_next) (rw (pushed, link_next) ran)), g2)

    link_same_lem :
        (b : ℕ) (s : RemoteSpanInfo P F) (adj : List (List (ℕ × F)))
        → b < num_blocks
        → IsGood adj
        → Has same ns (s.peer_id, b)
        → Has same ns (s.peer_id, b + 1)
        → Succeeds (link_same f same rtts ns b s adj)
    unfolding link_same
    link_same_lem b s adj h g (i, e) (j, k) =
        let (step, inside) = block_linked b i j s.peer_id s.peer_id h e k in
        let (adj1, pushed, g1) = push_edge_lem adj i j (same_delay f same rtts s) g inside step in
        (adj1, rw (e, link_same) (rw (k, link_same) pushed), g1)

    -- What a row of the table needs: a node for each span, and for its next block if it goes on.
    abbrev pub IsReady : ℕ → RemoteSpanInfo P F → Type 0
    IsReady b s =
        Has same ns (s.peer_id, b) × (ltb (b + 1) s.end ≡ true → Has same ns (s.peer_id, b + 1))

    link_span_lem :
        (b : ℕ) (s : RemoteSpanInfo P F) (row : Spans P F) (adj : List (List (ℕ × F)))
        → b < num_blocks
        → IsGood adj
        → IsReady b s
        → All (λ t. Has same ns (t.peer_id, b + 1)) row
        → Succeeds (link_span f same rtts ns num_blocks b s row adj)
    unfolding link_span
    link_span_lem b s row adj h g (has, on) hs = elim (Bool-cases (ltb (b + 1) s.end)) [
      | inl goes ↦
          let (adj1, ran, g1) = link_same_lem b s adj h g has (on goes) in
          second adj1 g1 (rw goes ran)
      | inr stops ↦ second adj g (rw stops refl)
    ]
      where
        second :
            (adj1 : List (List (ℕ × F)))
            → IsGood adj1
            → (if ltb (b + 1) s.end then link_same f same rtts ns b s adj else ok adj) ≡ ok adj1
            → Succeeds (link_span f same rtts ns num_blocks b s row adj)
        second adj1 g1 first = elim (Bool-cases (ltb (b + 1) num_blocks && (s.end == b + 1))) [
          | inl at_end ↦
              let (adj2, ran, g2) = link_next_lem b s row adj1 h g1 has hs in
              (adj2, rw (first, link_span) (rw at_end ran), g2)
          | inr not_end ↦ (adj1, rw (first, link_span) (rw not_end refl), g1)
        ]

    link_row_lem :
        (b : ℕ) (row next_row : Spans P F) (adj : List (List (ℕ × F)))
        → b < num_blocks
        → IsGood adj
        → All (IsReady b) row
        → All (λ t. Has same ns (t.peer_id, b + 1)) next_row
        → Succeeds (link_row f same rtts ns num_blocks b row next_row adj)
    unfolding link_row
    link_row_lem b [] next_row adj h g ready hs = (adj, refl, g)
    link_row_lem b (s ∷ row) next_row adj h g (ready, rest) hs =
        let (adj1, ran1, g1) = link_span_lem b s next_row adj h g ready hs in
        let (adj2, ran2, g2) = link_row_lem b row next_row adj1 h g1 rest hs in
        (adj2, rw (ran1, link_row) ran2, g2)

    abbrev pub RowsReady : ℕ → List (Spans P F) → Type 0
    RowsReady b [] = Unit
    RowsReady b (row ∷ rows) = All (IsReady b) row × RowsReady (b + 1) rows

    pub link_rows_lem :
        (b : ℕ) (rows : List (Spans P F)) (adj : List (List (ℕ × F)))
        → b + length rows ≡ num_blocks
        → IsGood adj
        → RowsReady b rows
        → Succeeds (link_rows f same rtts ns num_blocks b rows adj)
    unfolding link_rows
    link_rows_lem b [] adj h g ready = (adj, refl, g)
    link_rows_lem b (row ∷ rows) adj h g (ready, rest) =
        let (adj1, ran1, g1) =
          link_row_lem b row (first_row f same rtts rows) adj (omega arith) g ready
            (of_first rows rest) in
        let (adj2, ran2, g2) = link_rows_lem (b + 1) rows adj1 (omega arith) g1 rest in
        (adj2, rw (ran1, link_rows) ran2, g2)
      where
        of_first :
            (rows : List (Spans P F))
            → RowsReady (b + 1) rows
            → All (λ t. Has same ns (t.peer_id, b + 1)) (first_row f same rtts rows)
        of_first [] h = tt
        of_first (r ∷ rs) (h, hs) = All-map r (λ s ready. ready.0) h
