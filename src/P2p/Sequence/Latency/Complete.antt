-- ===== src/P2p/Sequence/Latency/Complete.antt =====
-- Where every block is held and no cost is rounded up, `dijkstra_min_latency` finds a route
-- (src/p2p/src/sequence_manager.rs).
use inference_mesh.Base.{
  ℕ, zero, suc, ◌+◌, ◌-◌, ◌<◌, ◌≡◌, refl, sym, ap, ◌∙◌, subst, Bool, true, false, ltb, ◌||◌,
  Bool-cases, inl, inr, some, List, [], ◌∷◌, keep, length, get_elem?, All, All-map, ok, pos,
  >>=-eq-ok, ok-injective, some-injective, arith,
}
use inference_mesh.P2p.Types.{RemoteSpanInfo}
use inference_mesh.P2p.ProviderCache.{is_empty}
use inference_mesh.P2p.Sequence.{Spans, spans_containing_block}
use inference_mesh.P2p.Sequence.Containing.{
  covers, get_elem?-spans_containing_block, length-spans_containing_block,
}
use inference_mesh.P2p.Sequence.Search.{F64, cost_to_nanos}
use inference_mesh.P2p.Sequence.Search.Reaches.{IsEdge, IsChain, IsTame}
use inference_mesh.P2p.Sequence.Search.Rounds.{search-Near}
use inference_mesh.P2p.Sequence.Graph.{Nodes, Latencies, Edges, first_row, link_first, link_last}
use inference_mesh.P2p.Sequence.Graph.Edges.{
  Linked, id, SpanLinked, RowsLinked, Linked-keep, link_first-Linked, link_last-Linked,
  link_rows-RowsLinked,
}
use inference_mesh.P2p.Sequence.Latency.{
  row_at, edge_count, number_nodes, build_edges, run_search, dijkstra_min_latency,
}
use inference_mesh.P2p.Sequence.Latency.Route.{Route}
use inference_mesh.P2p.Sequence.Latency.Rows.{EndsBy, Passing, Passing-keep, AreRows, table-AreRows}
use inference_mesh.P2p.Sequence.Latency.Found
use inference_mesh.P2p.Sequence.Latency.Found.{
  IsReflexive, edges_lem, numbered, searched, read_path_found,
}

module _ {ℓ κ} {A : Type ℓ} where
  Passing-get :
      (t : A → Bool) (Q : A → Type κ) (xs : List A) (j : ℕ) {x : A}
      → Passing t Q xs
      → get_elem? xs j ≡ some x
      → t x ≡ true
      → Q x
  Passing-get t Q [] j h got yes_x = cc
  Passing-get t Q (y ∷ xs) zero (h, hs) got yes_x =
      let at = some-injective got in subst Q at (h (rw at yes_x))
  Passing-get t Q (y ∷ xs) (suc j) (h, hs) got yes_x = Passing-get t Q xs j hs got yes_x

module _ {ℓ} {A : Type ℓ} where
  is_empty-length : (xs : List A) → 0 < length xs → is_empty xs ≡ false
  is_empty-length [] h = elim h [ ]
  is_empty-length (x ∷ xs) h = refl

  is_empty-keep :
      (t : A → Bool) (xs : List A) (j : ℕ) {x : A}
      → get_elem? xs j ≡ some x
      → t x ≡ true
      → is_empty (keep t xs) ≡ false
  is_empty-keep t [] j got yes_x = cc
  is_empty-keep t (y ∷ xs) zero got yes_x = let at = some-injective got in rw at (rw yes_x refl)
  is_empty-keep t (y ∷ xs) (suc j) got yes_x = elim (Bool-cases (t y)) [
    | inl yes_y ↦ rw yes_y refl
    | inr no_y ↦ rw no_y (is_empty-keep t xs j got yes_x)
  ]

module _ (f : F64) {P : Type 0} (same : Discrete P) (rtts : Latencies P f.F) (spans : Spans P f.F)
    (n : ℕ) where
  open f use {F}

  -- Some span holds the block.
  abbrev pub IsHeld : ℕ → Type 0
  IsHeld b = (j : ℕ) × (s : RemoteSpanInfo P F) × (get_elem? spans j ≡ some s) × (covers b s ≡ true)

  table_row :
      (c : ℕ) → c < n → row_at same (spans_containing_block spans n) c ≡ keep (covers c) spans
  table_row c h = rw (get_elem?-spans_containing_block spans n c h).1 refl

  row_some :
      (c : ℕ) → c < n → IsHeld c → is_empty (row_at same (spans_containing_block spans n) c) ≡ false
  row_some c h (j, s, got, cov) = rw (table_row c h) (is_empty-keep (covers c) spans j got cov)

  module _ (ns : Nodes P) (adj : Edges f same rtts) where
    -- The edges from block c of a span, by the spans that the next block has.
    abbrev Onward : ℕ → RemoteSpanInfo P F → Type 0
    Onward c s =
        (c + 1 < s.end
          → Linked f same rtts ns adj (id f same rtts ns s.peer_id c)
              (id f same rtts ns s.peer_id (c + 1)))
        × (c + 1 < n
            → s.end ≡ c + 1
            → Passing (covers (c + 1))
                (λ t.
                  Linked f same rtts ns adj (id f same rtts ns s.peer_id c)
                    (id f same rtts ns t.peer_id (c + 1)))
                spans)

    first_block_lem :
        (b : ℕ) (row : Spans P F) (rows : List (Spans P F))
        → b + suc (length rows) ≡ n
        → AreRows spans b (row ∷ rows)
        → All (SpanLinked f same rtts ns n adj b (first_row f same rtts rows)) row
        → Passing (covers b) (Onward b) spans
    first_block_lem b row rows size (is_row, are) linked =
        Passing-keep (covers b) (Onward b) spans (
          subst (All (Onward b)) is_row (
            All-map row
              (λ s (on, over). (on, λ more at_end. next s rows size are more (over more at_end)))
              linked))
      where
        next :
            (s : RemoteSpanInfo P F) (rows : List (Spans P F))
            → b + suc (length rows) ≡ n
            → AreRows spans (b + 1) rows
            → b + 1 < n
            → All
                (λ t.
                  Linked f same rtts ns adj
                    (id f same rtts ns s.peer_id b)
                    (id f same rtts ns t.peer_id (b + 1)))
                (first_row f same rtts rows)
            → Passing
                (covers (b + 1))
                (λ t.
                  Linked f same rtts ns adj
                    (id f same rtts ns s.peer_id b)
                    (id f same rtts ns t.peer_id (b + 1)))
                spans
        next s [] size are more all = absurd (omega (arith, size, more))
        next s (row2 ∷ rest) size (is_row2, are) more all =
            Passing-keep (covers (b + 1)) _ spans (subst (All _) is_row2 all)

    onward :
        (b i : ℕ) (rows : List (Spans P F))
        → i < length rows
        → b + length rows ≡ n
        → AreRows spans b rows
        → RowsLinked f same rtts ns n adj b rows
        → Passing (covers (b + i)) (Onward (b + i)) spans
    onward b i [] h size are linked = elim h [ ]
    onward b zero (row ∷ rows) h size are (linked, rest) =
        let at : b ≡ b + 0 = omega arith in
        subst (λ c. Passing (covers c) (Onward c) spans) at
          (first_block_lem b row rows size are linked)
    onward b (suc i) (row ∷ rows) h size (is_row, are) (linked, rest) =
        let at : (b + 1) + i ≡ b + suc i = omega arith in
        subst (λ c. Passing (covers c) (Onward c) spans) at
          (onward (b + 1) i rows (omega (arith, h)) (omega (arith, size)) are rest)

    -- From a block of a span that holds it, the edges lead to the end.
    from-IsChain :
        ((b : ℕ) → b < n → IsHeld b)
        → ((c : ℕ) → c < n → Passing (covers c) (Onward c) spans)
        → Passing
            (covers (n - 1))
            (λ s. Linked f same rtts ns adj (id f same rtts ns s.peer_id (n - 1)) (ok 1))
            spans
        → (k b j : ℕ) (s : RemoteSpanInfo P F) (u : ℕ) → b + suc k ≡ n
        → get_elem? spans j ≡ some s
        → covers b s ≡ true
        → id f same rtts ns s.peer_id b ≡ ok u
        → (path : List ℕ) × IsChain adj u path
    from-IsChain held on last zero b j s u size got cov is_u =
        let at : b ≡ n - 1 = omega (arith, size) in
        let (from, to, is_from, is_to, edge) =
          Passing-get (covers (n - 1)) _ spans j last got (subst (λ c. covers c s ≡ true) at cov) in
        let same_from : from ≡ u =
          ok-injective (sym is_from ∙ (ap (id f same rtts ns s.peer_id) (sym at) ∙ is_u)) in
        (to ∷ [], (subst (λ w. IsEdge adj w to) same_from edge, sym (ok-injective is_to)))
    from-IsChain held on last (suc k) b j s u size got cov is_u =
        let (inner, over) = Passing-get (covers b) _ spans j (on b (omega (arith, size))) got cov in
        elim (Bool-cases (ltb (b + 1) s.end)) [
          | inl more ↦
              let (from, to, is_from, is_to, edge) = inner (ground arith) in
              let (path, chain) =
                from-IsChain held on last k (b + 1) j s to (omega (arith, size)) got
                  (ground (arith, cov)) is_to in
              (
                to ∷ path,
                (subst (λ w. IsEdge adj w to) (ok-injective (sym is_from ∙ is_u)) edge, chain),
              )
          | inr ended ↦
              let at_end : s.end ≡ b + 1 = ground (arith, cov) in
              let (i, t, got_t, cov_t) = held (b + 1) (omega (arith, size)) in
              let (from, to, is_from, is_to, edge) =
                Passing-get (covers (b + 1)) _ spans i (over (omega (arith, size)) at_end) got_t
                  cov_t in
              let (path, chain) =
                from-IsChain held on last k (b + 1) i t to (omega (arith, size)) got_t cov_t
                  is_to in
              (
                to ∷ path,
                (subst (λ w. IsEdge adj w to) (ok-injective (sym is_from ∙ is_u)) edge, chain),
              )
        ]

    -- The graph has a chain of edges from the client to the client.
    build_edges-IsChain :
        0 < n
        → ((b : ℕ) → b < n → IsHeld b)
        → build_edges f same rtts ns n (spans_containing_block spans n) ≡ ok adj
        → (path : List ℕ) × IsChain adj 0 path
    unfolding build_edges
    build_edges-IsChain positive held built =
        let table = spans_containing_block spans n in
        let sized = length-spans_containing_block spans n in
        let (adj1, ran1, e1) =
          >>=-eq-ok (link_first f same rtts ns (row_at same table 0) _) _ built in
        let (adj2, ran2, e2) =
          >>=-eq-ok (link_last f same rtts (n - 1) ns (row_at same table (n - 1)) adj1) _ e1 in
        let (_, firsts) = link_first-Linked f same rtts ns (row_at same table 0) _ adj1 ran1 in
        let (keeps2, lasts) =
          link_last-Linked f same rtts ns (n - 1) (row_at same table (n - 1)) adj1 adj2 ran2 in
        let (keeps3, rows) = link_rows-RowsLinked f same rtts ns n 0 table adj2 adj e2 in
        let first : Passing (covers 0)
            (λ s. Linked f same rtts ns adj1 (ok 0) (id f same rtts ns s.peer_id 0)) spans =
          Passing-keep (covers 0) _ spans (subst (All _) (table_row 0 positive) firsts) in
        let last : Passing (covers (n - 1))
            (λ s. Linked f same rtts ns adj (id f same rtts ns s.peer_id (n - 1)) (ok 1)) spans =
          Passing-keep (covers (n - 1)) _ spans (
            All-map _ (λ s. Linked-keep f same rtts ns adj2 adj keeps3)
              (subst (All _) (table_row (n - 1) (omega (arith, positive))) lasts)) in
        let on : (c : ℕ) → c < n → Passing (covers c) (Onward c) spans = λ c h.
          subst (λ k. Passing (covers k) (Onward k) spans) (omega arith)
            (onward 0 c table (omega (arith, h, sized)) (omega (arith, sized))
              (table-AreRows spans n) rows) in
        let (j, s, got, cov) = held 0 positive in
        let (from, to, is_from, is_to, edge) = Passing-get (covers 0) _ spans j first got cov in
        let (path, chain) =
          from-IsChain held on last (n - 1) 0 j s to (omega (arith, positive)) got cov is_to in
        (
          to ∷ path,
          (
            keeps3 0 to
                (keeps2 0 to (subst (λ w. IsEdge adj1 w to) (ok-injective (sym is_from)) edge)),
            chain,
          ),
        )

  module _ (before after : P) where
    abbrev pub graph : Nodes P
    graph = number_nodes f same rtts before after n (spans_containing_block spans n)

    open_ends :
        0 < n
        → ((b : ℕ) → b < n → IsHeld b)
        → (is_empty (spans_containing_block spans n)
            || (is_empty (row_at same (spans_containing_block spans n) 0)
                || is_empty (row_at same (spans_containing_block spans n) (n - 1))))
          ≡ false
    open_ends positive held =
        let table = spans_containing_block spans n in
        let some_rows : is_empty table ≡ false =
          is_empty-length table (omega (arith, positive, length-spans_containing_block spans n)) in
        let last : n - 1 < n = omega (arith, positive) in
        rw
          (
            some_rows,
            row_some 0 positive (held 0 positive),
            row_some (n - 1) last (held (n - 1) last),
          )
          refl

    -- Where some span holds each of the blocks, of which there is at least one, no span ends behind
    -- the last block, infinity equals itself and zero makes no nanoseconds, and where, among a set of
    -- costs for each node that has zero for the first and is closed under the edges and under rounding
    -- to nanoseconds and back, none is infinite and none rises when it is rounded, a route is found,
    -- from the first block to behind the last.
    pub dijkstra_min_latency_finds :
        (Tame : ℕ → F → Type 0)
        → EndsBy n spans
        → IsReflexive f same rtts
        → 0 < n
        → ((b : ℕ) → b < n → IsHeld b)
        → ((adj : Edges f same rtts)
            → build_edges f same rtts graph n (spans_containing_block spans n) ≡ ok adj
            → IsTame f adj Tame)
        → Tame 0 f.zero
        → cost_to_nanos f f.zero ≡ pos 0
        → (route : Spans P F) × (dijkstra_min_latency f same rtts before after spans n
            ≡ some (ok (some route)))
          × Route spans 0 n route
    unfolding dijkstra_min_latency run_search Found.ns
    dijkstra_min_latency_finds Tame ends refl_inf positive held tame_edges tame_zero zero_cost =
        let (adj, built, g) = edges_lem f same rtts spans n before after ends positive in
        let tame = tame_edges adj built in
        let (st, ran, l) = searched f same rtts spans n before after adj refl_inf g in
        let (path, chain) = build_edges-IsChain graph adj positive held built in
        let two = (numbered f same rtts spans n before after).0.two in
        let (x, got, tame_x) =
          search-Near f adj Tame (length graph.nodes) _ st path tame (omega (arith, two)) refl_inf
            tame_zero zero_cost chain ran in
        let (route, read, r) =
          read_path_found f same rtts spans n before after adj (edge_count adj) st x l got
            (tame.unequal 1 x tame_x) in
        (route, rw (open_ends positive held) (rw built (rw ran read)), r)
