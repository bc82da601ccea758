-- ===== src/Tests/Latency.antt =====
-- The quickest way through two peers, with numbers for delays.
use inference_mesh.Base.{
  ℕ, ◌+◌, ◌*◌, ◌/◌, ◌≡◌, refl, ◌⊎◌, ltb, ◌==◌, ℤ, pos, negsuc, ℕ_discrete, none, some, [], ◌∷◌, ok,
  arith,
}
use inference_mesh.Base.HashMap
use mathlib.Core.List.{List-discrete}
use inference_mesh.P2p.Types
use inference_mesh.P2p.Types.{RemoteSpanInfo, online}
use inference_mesh.P2p.Sequence.{Spans, spans_containing_block, push_at}
use inference_mesh.P2p.Sequence.Search.{F64, pop_from, search, path_back}
use inference_mesh.P2p.Sequence.Graph.{Latencies, add_rows, link_first, link_last, link_rows}
use inference_mesh.P2p.Sequence.Latency.{dijkstra_min_latency}
use inference_mesh.P2p.Sequence.Latency.Route.{Route}
use inference_mesh.P2p.Sequence.Latency.Found.{dijkstra_min_latency_lem}

abbrev pub to_nat : ℤ → ℕ
to_nat (pos n) = n
to_nat (negsuc n) = 0

abbrev pub floats : F64
floats = record {
  F = ℕ;
  zero = 0;
  infinity = 1_000_000;
  one = 100;
  two = 2;
  nanos_per_second = 1;
  overhead_delay = 18;
  default_inference_rps = 100;
  default_delay = 150;
  add = λ x y. x + y;
  mul = λ x y. x * y;
  div = λ x y. x / y;
  as_i64 = λ x. pos x;
  from_i64 = to_nat;
  less = ltb;
  equal = λ x y. x == y;
}

abbrev pub span : ℕ → ℕ → ℕ → RemoteSpanInfo ℕ ℕ
span peer start end = record {
  peer_id = peer;
  start = start;
  end = end;
  server_info = Types.new online 1;
}

-- Peer 7 holds blocks 0 and 1, peer 8 holds block 2, and peer 9 holds all, but is far away.
abbrev pub spans : Spans ℕ ℕ
spans = span 7 0 2 ∷ span 8 2 3 ∷ span 9 0 3 ∷ []

abbrev pub latencies : Latencies ℕ ℕ
latencies = record {
  client_server_rtts = (7, 10) ∷ (8, 10) ∷ (9, 900) ∷ [];
  server_server_rtts = ((7, 8), 4) ∷ [];
  to_base58 = λ p. p ∷ [];
  same_text = List-discrete ℕ_discrete;
}

dijkstra_min_latency_lem_example :
    (dijkstra_min_latency floats ℕ_discrete latencies 100 101 spans 3 ≡ some (ok none))
    ⊎ ((route : Spans ℕ ℕ) × (dijkstra_min_latency floats ℕ_discrete latencies 100 101 spans 3
          ≡ some (ok (some route)))
        × Route spans 0 3 route)
dijkstra_min_latency_lem_example =
    dijkstra_min_latency_lem floats ℕ_discrete latencies spans 3 100 101
      (omega arith, (omega arith, (omega arith, tt))) (ground arith)

-- The run finds the way over peers 7 and 8.
finds_two :
    dijkstra_min_latency floats ℕ_discrete latencies 100 101 spans 3
    ≡ some (ok (some (span 7 0 2 ∷ span 8 2 3 ∷ [])))
unfolding dijkstra_min_latency spans_containing_block push_at link_first HashMap.get add_rows
    HashMap.insert HashMap.pair_discrete ℕ_discrete link_last link_rows search pop_from Types.new
    path_back Types.length
finds_two = refl
