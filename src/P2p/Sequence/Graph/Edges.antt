-- ===== src/P2p/Sequence/Graph/Edges.antt =====
-- Which edges the graph of `dijkstra_min_latency` has (src/p2p/src/sequence_manager.rs).
use inference_mesh.Base.{
  ℕ, ◌+◌, ◌<◌, ◌≡◌, refl, sym, ap, ◌∙◌, subst, false, ◌&&◌, ltb, ◌==◌, if◌then◌else◌, Bool-cases,
  inl, inr, some, List, [], ◌∷◌, ◌++◌, get_elem?, get_elem?_below, get_elem?-set,
  get_elem?-append_one, All, All-map, Result, ok, or_panic, >>=-eq-ok, ok-injective, or_panic-ok,
  some-injective, length, arith,
}
use inference_mesh.P2p.Types.{RemoteSpanInfo}
use inference_mesh.P2p.Sequence.{Spans}
use inference_mesh.P2p.Sequence.Search.{F64}
use inference_mesh.P2p.Sequence.Search.Reaches.{IsEdge}
use inference_mesh.P2p.Sequence.Graph.{
  Nodes, Latencies, Edges, push_edge, node_id, link_first, link_last, link_next, link_same,
  link_span, link_row, link_rows, first_row,
}

module _ {F : Type 0} where
  -- No edge is lost.
  abbrev pub KeepsEdges : List (List (ℕ × F)) → List (List (ℕ × F)) → Type 0
  KeepsEdges adj adj' = (u v : ℕ) → IsEdge adj u v → IsEdge adj' u v

  not_last :
      (i : ℕ) (edges : List (ℕ × F)) {e : ℕ × F}
      → get_elem? edges i ≡ some e
      → (i == length edges) ≡ false
  not_last i edges got = ground (arith, get_elem?_below edges i got)

  push_edge-IsEdge :
      (adj adj' : List (List (ℕ × F))) (from v : ℕ) (w : F)
      → push_edge adj from (v, w) ≡ ok adj'
      → KeepsEdges adj adj' × IsEdge adj' from v
  unfolding push_edge
  push_edge-IsEdge adj adj' from v w e =
      let (edges, read, made) = >>=-eq-ok (or_panic (get_elem? adj from)) _ e in
      let got = or_panic-ok (get_elem? adj from) read in
      let inside = get_elem?_below adj from got in
      let longer = edges ++ ((v, w) ∷ []) in
      subst (λ a. KeepsEdges adj a × IsEdge a from v) (ok-injective made)
        (
          λ u x (es, i, y, has, listed). elim (Bool-cases (from == u)) [
            | inl same ↦
                let at : from ≡ u = ground arith in
                let these : es ≡ edges =
                  some-injective (sym has ∙ (ap (get_elem? adj) (sym at) ∙ got)) in
                let here : get_elem? edges i ≡ some (x, y) =
                  subst (λ l. get_elem? l i ≡ some (x, y)) these listed in
                (
                  longer,
                  i,
                  y,
                  rw (get_elem?-set adj from u longer inside, same) refl,
                  get_elem?-append_one edges i (v, w) ∙ rw (not_last i edges here) here,
                )
            | inr other ↦ (es, i, y, rw (get_elem?-set adj from u longer inside, other) has, listed)
          ],
          (
            longer,
            length edges,
            w,
            rw (get_elem?-set adj from from longer inside) (ground arith),
            get_elem?-append_one edges (length edges) (v, w) ∙ (ground arith),
          ),
        )

module _ (f : F64) {P : Type 0} (same : Discrete P) (rtts : Latencies P f.F) (ns : Nodes P) where
  open f use {F}

  -- An edge between two nodes that are found.
  abbrev pub Linked : Edges f same rtts → Result ℕ → Result ℕ → Type 0
  Linked adj from to = (u : ℕ) × (v : ℕ) × (from ≡ ok u) × (to ≡ ok v) × IsEdge adj u v

  abbrev pub id : P → ℕ → Result ℕ
  id p b = node_id same ns (p, b)

  pub Linked-keep :
      (adj adj' : Edges f same rtts) {from to : Result ℕ}
      → KeepsEdges adj adj'
      → Linked adj from to
      → Linked adj' from to
  Linked-keep adj adj' keeps (u, v, is_u, is_v, edge) = (u, v, is_u, is_v, keeps u v edge)

  pub link_first-Linked :
      (spans : Spans P F) (adj adj' : Edges f same rtts)
      → link_first f same rtts ns spans adj ≡ ok adj'
      → KeepsEdges adj adj' × All (λ s. Linked adj' (ok 0) (id s.peer_id 0)) spans
  unfolding link_first
  link_first-Linked [] adj adj' e = (λ u v. subst (λ a. IsEdge a u v) (ok-injective e), tt)
  link_first-Linked (s ∷ spans) adj adj' e =
      let (to, is_to, e1) = >>=-eq-ok (id s.peer_id 0) _ e in
      let (next, pushed, e2) = >>=-eq-ok (push_edge adj 0 (to, _)) _ e1 in
      let (keeps, edge) = push_edge-IsEdge adj next 0 to _ pushed in
      let (keeps', links) = link_first-Linked spans next adj' e2 in
      (λ u v x. keeps' u v (keeps u v x), ((0, to, refl, is_to, keeps' 0 to edge), links))

  pub link_last-Linked :
      (last : ℕ) (spans : Spans P F) (adj adj' : Edges f same rtts)
      → link_last f same rtts last ns spans adj ≡ ok adj'
      → KeepsEdges adj adj' × All (λ s. Linked adj' (id s.peer_id last) (ok 1)) spans
  unfolding link_last
  link_last-Linked last [] adj adj' e = (λ u v. subst (λ a. IsEdge a u v) (ok-injective e), tt)
  link_last-Linked last (s ∷ spans) adj adj' e =
      let (from, is_from, e1) = >>=-eq-ok (id s.peer_id last) _ e in
      let (next, pushed, e2) = >>=-eq-ok (push_edge adj from (1, _)) _ e1 in
      let (keeps, edge) = push_edge-IsEdge adj next from 1 _ pushed in
      let (keeps', links) = link_last-Linked last spans next adj' e2 in
      (λ u v x. keeps' u v (keeps u v x), ((from, 1, is_from, refl, keeps' from 1 edge), links))

  link_next-Linked :
      (b : ℕ) (s : RemoteSpanInfo P F) (spans : Spans P F) (adj adj' : Edges f same rtts)
      → link_next f same rtts ns b s spans adj ≡ ok adj'
      → KeepsEdges adj adj' × All (λ t. Linked adj' (id s.peer_id b) (id t.peer_id (b + 1))) spans
  unfolding link_next
  link_next-Linked b s [] adj adj' e = (λ u v. subst (λ a. IsEdge a u v) (ok-injective e), tt)
  link_next-Linked b s (t ∷ spans) adj adj' e =
      let (from, is_from, e1) = >>=-eq-ok (id s.peer_id b) _ e in
      let (to, is_to, e2) = >>=-eq-ok (id t.peer_id (b + 1)) _ e1 in
      let (next, pushed, e3) = >>=-eq-ok (push_edge adj from (to, _)) _ e2 in
      let (keeps, edge) = push_edge-IsEdge adj next from to _ pushed in
      let (keeps', links) = link_next-Linked b s spans next adj' e3 in
      (λ u v x. keeps' u v (keeps u v x), ((from, to, is_from, is_to, keeps' from to edge), links))

  link_same-Linked :
      (b : ℕ) (s : RemoteSpanInfo P F) (adj adj' : Edges f same rtts)
      → link_same f same rtts ns b s adj ≡ ok adj'
      → KeepsEdges adj adj' × Linked adj' (id s.peer_id b) (id s.peer_id (b + 1))
  unfolding link_same
  link_same-Linked b s adj adj' e =
      let (from, is_from, e1) = >>=-eq-ok (id s.peer_id b) _ e in
      let (to, is_to, e2) = >>=-eq-ok (id s.peer_id (b + 1)) _ e1 in
      let (keeps, edge) = push_edge-IsEdge adj adj' from to _ e2 in
      (keeps, (from, to, is_from, is_to, edge))

  -- The edges from a span's block b: to its next block, and from its last block to the next spans.
  abbrev pub SpanLinked : ℕ → Edges f same rtts → ℕ → Spans P F → RemoteSpanInfo P F → Type 0
  SpanLinked n adj b next_row s =
      (b + 1 < s.end → Linked adj (id s.peer_id b) (id s.peer_id (b + 1)))
      × (b + 1 < n
          → s.end ≡ b + 1
          → All (λ t. Linked adj (id s.peer_id b) (id t.peer_id (b + 1))) next_row)

  SpanLinked-keep :
      (n b : ℕ) (adj adj' : Edges f same rtts) (next_row : Spans P F) (s : RemoteSpanInfo P F)
      → KeepsEdges adj adj'
      → SpanLinked n adj b next_row s
      → SpanLinked n adj' b next_row s
  SpanLinked-keep n b adj adj' next_row s keeps (on, over) = (
    λ inside. Linked-keep adj adj' keeps (on inside),
    λ more at_end. All-map next_row (λ t. Linked-keep adj adj' keeps) (over more at_end),
  )

  link_span-SpanLinked :
      (n b : ℕ) (s : RemoteSpanInfo P F) (next_row : Spans P F) (adj adj' : Edges f same rtts)
      → link_span f same rtts ns n b s next_row adj ≡ ok adj'
      → KeepsEdges adj adj' × SpanLinked n adj' b next_row s
  unfolding link_span
  link_span-SpanLinked n b s next_row adj adj' e =
      let (mid, e_on, e_over) =
        >>=-eq-ok (if ltb (b + 1) s.end then link_same f same rtts ns b s adj else ok adj) _ e in
      let (keeps, on) = go_on mid e_on in
      let (keeps', over) = go_over mid e_over in
      (λ u v x. keeps' u v (keeps u v x), (λ inside. Linked-keep mid adj' keeps' (on inside), over))
    where
      go_on :
          (mid : Edges f same rtts)
          → (if ltb (b + 1) s.end then link_same f same rtts ns b s adj else ok adj) ≡ ok mid
          → KeepsEdges adj mid
            × (b + 1 < s.end → Linked mid (id s.peer_id b) (id s.peer_id (b + 1)))
      go_on mid e = elim (Bool-cases (ltb (b + 1) s.end)) [
        | inl inside ↦
            let (keeps, link) = link_same-Linked b s adj mid (rw inside at e) in (keeps, λ _. link)
        | inr ended ↦ (
          λ u v. subst (λ a. IsEdge a u v) (ok-injective (rw ended at e)),
          λ inside. absurd (ground (arith, inside, ended)),
        )
      ]

      go_over :
          (mid : Edges f same rtts)
          → (if ltb (b + 1) n && (s.end == b + 1)
              then link_next f same rtts ns b s next_row mid
              else ok mid)
            ≡ ok adj'
          → KeepsEdges mid adj'
            × (b + 1 < n
                → s.end ≡ b + 1
                → All (λ t. Linked adj' (id s.peer_id b) (id t.peer_id (b + 1))) next_row)
      go_over mid e = elim (Bool-cases (ltb (b + 1) n && (s.end == b + 1))) [
        | inl at_end ↦
            let (keeps, links) = link_next-Linked b s next_row mid adj' (rw at_end at e) in
            (keeps, λ _ _. links)
        | inr inner ↦ (
          λ u v. subst (λ a. IsEdge a u v) (ok-injective (rw inner at e)),
          λ more at_end. absurd (ground (arith, more, at_end, inner)),
        )
      ]

  link_row-SpanLinked :
      (n b : ℕ) (row next_row : Spans P F) (adj adj' : Edges f same rtts)
      → link_row f same rtts ns n b row next_row adj ≡ ok adj'
      → KeepsEdges adj adj' × All (SpanLinked n adj' b next_row) row
  unfolding link_row
  link_row-SpanLinked n b [] next_row adj adj' e =
      (λ u v. subst (λ a. IsEdge a u v) (ok-injective e), tt)
  link_row-SpanLinked n b (s ∷ row) next_row adj adj' e =
      let (mid, one, rest) = >>=-eq-ok (link_span f same rtts ns n b s next_row adj) _ e in
      let (keeps, here) = link_span-SpanLinked n b s next_row adj mid one in
      let (keeps', others) = link_row-SpanLinked n b row next_row mid adj' rest in
      (
        λ u v x. keeps' u v (keeps u v x),
        (SpanLinked-keep n b mid adj' next_row s keeps' here, others),
      )

  -- So it is for all rows of the table.
  abbrev pub RowsLinked : ℕ → Edges f same rtts → ℕ → List (Spans P F) → Type 0
  RowsLinked n adj b [] = Unit
  RowsLinked n adj b (row ∷ rows) =
      All (SpanLinked n adj b (first_row f same rtts rows)) row × RowsLinked n adj (b + 1) rows

  pub link_rows-RowsLinked :
      (n b : ℕ) (rows : List (Spans P F)) (adj adj' : Edges f same rtts)
      → link_rows f same rtts ns n b rows adj ≡ ok adj'
      → KeepsEdges adj adj' × RowsLinked n adj' b rows
  unfolding link_rows
  link_rows-RowsLinked n b [] adj adj' e = (λ u v. subst (λ a. IsEdge a u v) (ok-injective e), tt)
  link_rows-RowsLinked n b (row ∷ rows) adj adj' e =
      let next_row = first_row f same rtts rows in
      let (mid, one, rest) = >>=-eq-ok (link_row f same rtts ns n b row next_row adj) _ e in
      let (keeps, here) = link_row-SpanLinked n b row next_row adj mid one in
      let (keeps', others) = link_rows-RowsLinked n (b + 1) rows mid adj' rest in
      (
        λ u v x. keeps' u v (keeps u v x),
        (All-map row (λ s. SpanLinked-keep n b mid adj' next_row s keeps') here, others),
      )
