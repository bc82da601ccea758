-- ===== src/Tests/Routes.antt =====
-- The graph of the three peers, in which no cost comes near infinity, and the route in it.
use inference_mesh.Base.{
  ℕ, zero, suc, ◌+◌, ◌*◌, ◌<◌, ◌≤◌, ◌≡◌, refl, sym, subst, ◌∙◌, some, List, [], ◌∷◌, get_elem?, All,
  ok, ok-injective, some-injective, ℕ_discrete, arith,
}
use inference_mesh.Base.HashMap
use inference_mesh.P2p.Types
use inference_mesh.P2p.Sequence.{Spans, spans_containing_block, push_at}
use inference_mesh.P2p.Sequence.Search.Reaches.{IsTame}
use inference_mesh.P2p.Sequence.Graph.{add_rows, link_first, link_last, link_rows}
use inference_mesh.P2p.Sequence.Latency.{build_edges, dijkstra_min_latency, number_nodes}
use inference_mesh.P2p.Sequence.Latency.Route.{Route}
use inference_mesh.P2p.Sequence.Latency.Complete.{IsHeld, graph, dijkstra_min_latency_finds}
use inference_mesh.Tests.Latency.{floats, span, spans, latencies}

abbrev edges : List (List (ℕ × ℕ))
edges =
    ((2, 23) ∷ (3, 468) ∷ [])
    ∷ []
    ∷ ((4, 1) ∷ [])
    ∷ ((5, 1) ∷ [])
    ∷ ((6, 20) ∷ (7, 93) ∷ [])
    ∷ ((7, 1) ∷ [])
    ∷ ((1, 5) ∷ [])
    ∷ ((1, 450) ∷ [])
    ∷ []

built :
    build_edges floats ℕ_discrete latencies
      (graph floats ℕ_discrete latencies spans 3 100 101)
      3
      (spans_containing_block spans 3)
    ≡ ok edges
unfolding build_edges number_nodes spans_containing_block push_at link_first HashMap.get add_rows
    HashMap.insert HashMap.pair_discrete ℕ_discrete link_last link_rows Types.new
built = refl

-- How many edges a node is away from the end.
abbrev steps_left : ℕ → ℕ
steps_left zero = 4
steps_left (suc zero) = 0
steps_left (suc (suc zero)) = 3
steps_left (suc (suc (suc zero))) = 3
steps_left (suc (suc (suc (suc zero)))) = 2
steps_left (suc (suc (suc (suc (suc zero))))) = 2
steps_left (suc (suc (suc (suc (suc (suc n)))))) = 1

abbrev Small : ℕ → ℕ → Type 0
Small u x = x + 1000 * steps_left u ≤ 6000

-- What `IsTame` asks of the edges, from some node on.
abbrev AddsAll : (ℕ → ℕ) → List (List (ℕ × ℕ)) → Type 0
AddsAll node [] = Unit
AddsAll node (es ∷ rest) =
    All (λ e. (x : ℕ) → Small (node 0) x → Small e.0 (x + e.1)) es
    × AddsAll (λ i. node (suc i)) rest

adds_at :
    (node : ℕ → ℕ) (rest : List (List (ℕ × ℕ))) (i : ℕ) (es : List (ℕ × ℕ))
    → AddsAll node rest
    → get_elem? rest i ≡ some es
    → All (λ e. (x : ℕ) → Small (node i) x → Small e.0 (x + e.1)) es
adds_at node [] i es h e = cc
adds_at node (fs ∷ rest) zero es (h, hs) e = subst (All _) (some-injective e) h
adds_at node (fs ∷ rest) (suc i) es (h, hs) e = adds_at (λ i. node (suc i)) rest i es hs e

edges_add : AddsAll (λ u. u) edges
edges_add = (
  (λ x h. omega (arith, h), (λ x h. omega (arith, h), tt)),
  (
    tt,
    (
      (λ x h. omega (arith, h), tt),
      (
        (λ x h. omega (arith, h), tt),
        (
          (λ x h. omega (arith, h), (λ x h. omega (arith, h), tt)),
          (
            (λ x h. omega (arith, h), tt),
            ((λ x h. omega (arith, h), tt), ((λ x h. omega (arith, h), tt), tt)),
          ),
        ),
      ),
    ),
  ),
)

edges-IsTame : IsTame floats edges Small
edges-IsTame = record {
  finite = λ u x h. ground (arith, h);
  unequal = λ u x h. ground (arith, h);
  adds = λ u es e. adds_at (λ v. v) edges u es edges_add e;
  read_back = λ u x h. omega (arith, h);
  no_rise = λ u x h. ground (arith, h);
}

spans-IsHeld : (b : ℕ) → b < 3 → IsHeld floats ℕ_discrete latencies spans 3 b
spans-IsHeld b h = (2, span 9 0 3, refl, ground (arith, h))

dijkstra_min_latency_finds_example :
    (route : Spans ℕ ℕ) × (dijkstra_min_latency floats ℕ_discrete latencies 100 101 spans 3
      ≡ some (ok (some route)))
    × Route spans 0 3 route
dijkstra_min_latency_finds_example =
    dijkstra_min_latency_finds floats ℕ_discrete latencies spans 3 100 101 Small
      (omega arith, (omega arith, (omega arith, tt))) (ground arith) (omega arith) spans-IsHeld
      (λ adj made.
        subst (λ es. IsTame floats es Small) (ok-injective (sym built ∙ made)) edges-IsTame)
      (omega arith) refl
