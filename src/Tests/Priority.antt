-- ===== src/Tests/Priority.antt =====
-- Spans from the servers of three blocks.
use inference_mesh.Base.{
  ℕ, ◌≡◌, refl, ◌⊎◌, ℕ_discrete, none, some, List, [], ◌∷◌, map, sort_by, place, split,
  parse_digits, ok, arith,
}
use inference_mesh.Base.HashMap
use inference_mesh.P2p.Dht.{codes}
use inference_mesh.P2p.Types
use inference_mesh.P2p.Types.{RemoteModuleInfo, RemoteSpanInfo, ServerInfo, online, joining}
use inference_mesh.P2p.Sequence.{Spans}
use inference_mesh.P2p.Sequence.Latency.{dijkstra_min_latency}
use inference_mesh.P2p.Sequence.Latency.Route.{Route}
use inference_mesh.P2p.Sequence.Priority.{compute_spans, spans_by_priority, add_modules, add_listed}
use inference_mesh.P2p.Sequence.Priority.Grown.{IsSpanOf, compute_spans_lem}
use inference_mesh.P2p.Sequence.Priority.Listings.{listings}
use inference_mesh.P2p.Sequence.Priority.Routes.{dijkstra_min_latency-spans_by_priority}
use inference_mesh.Tests.Latency.{floats, latencies}

abbrev up : ServerInfo ℕ
up = Types.new online 1

-- It announces the blocks 5 and 6, by their numbers in the whole model.
abbrev announced : ServerInfo ℕ
announced = record (Types.new online 1) { start_block = some 5; end_block = some 7 }

abbrev waiting : ServerInfo ℕ
waiting = Types.new joining 1

abbrev modules : List (RemoteModuleInfo ℕ ℕ)
modules =
    record { uid = codes "model.5"; servers = (7, up) ∷ (8, waiting) ∷ (9, announced) ∷ [] }
    ∷ record { uid = codes "model.6"; servers = (8, up) ∷ [] }
    ∷ record { uid = codes "model.7"; servers = (7, up) ∷ (8, up) ∷ (9, announced) ∷ [] }
    ∷ []

-- Peer 8 is waiting at the first block, and no server announces its blocks.
abbrev silent_modules : List (RemoteModuleInfo ℕ ℕ)
silent_modules =
    record { uid = codes "model.5"; servers = (7, up) ∷ (8, waiting) ∷ [] }
    ∷ record { uid = codes "model.6"; servers = (8, up) ∷ [] }
    ∷ record { uid = codes "model.7"; servers = (7, up) ∷ (8, up) ∷ [] }
    ∷ record { uid = codes "model.8"; servers = (8, waiting) ∷ [] }
    ∷ []

compute_spans_lem_example :
    IsSpanOf
      (listings ℕ_discrete joining 8 0 silent_modules [])
      (HashMap.get ℕ_discrete 8 (compute_spans ℕ_discrete silent_modules joining))
unfolding Types.new HashMap.get ℕ_discrete
compute_spans_lem_example =
    compute_spans_lem ℕ_discrete silent_modules joining 8
      ((refl, (refl, tt)), ((refl, tt), ((refl, (refl, tt)), ((refl, tt), tt))))
      ((refl, (refl, tt)), ((refl, tt), ((refl, (refl, tt)), ((refl, tt), tt))))

-- What peer 8 is listed with before it is online, and again after, leaves its span alone.
silent_span :
    HashMap.get ℕ_discrete 8 (compute_spans ℕ_discrete silent_modules joining)
    ≡ some (record { peer_id = 8; start = 1; end = 3; server_info = up })
unfolding compute_spans add_modules add_listed sort_by place split parse_digits HashMap.get
    HashMap.insert ℕ_discrete Types.new
silent_span = refl

dijkstra_min_latency-spans_by_priority_example :
    (dijkstra_min_latency floats ℕ_discrete latencies 100 101
        (spans_by_priority ℕ_discrete modules)
        3
      ≡ some (ok none))
    ⊎ ((route : Spans ℕ ℕ) × (dijkstra_min_latency floats ℕ_discrete latencies 100 101
            (spans_by_priority ℕ_discrete modules)
            3
          ≡ some (ok (some route)))
        × Route (spans_by_priority ℕ_discrete modules) 0 3 route)
dijkstra_min_latency-spans_by_priority_example =
    dijkstra_min_latency-spans_by_priority floats ℕ_discrete latencies modules 100 101
      (ground arith)

abbrev bounds : RemoteSpanInfo ℕ ℕ → ℕ × ℕ × ℕ
bounds s = (s.peer_id, s.start, s.end)

-- Peer 7 is given block 1 as well, which it does not hold.
gives_spans :
    map bounds (spans_by_priority ℕ_discrete modules) ≡ (7, 0, 3) ∷ (9, 0, 2) ∷ (8, 1, 3) ∷ []
unfolding spans_by_priority compute_spans add_modules add_listed sort_by place split parse_digits
    HashMap.get HashMap.insert ℕ_discrete Types.new Types.length
gives_spans = refl
