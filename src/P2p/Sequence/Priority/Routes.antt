-- ===== src/P2p/Sequence/Priority/Routes.antt =====
-- `spans_by_priority` (src/p2p/src/sequence_manager.rs): where its spans end, and the way that
-- `dijkstra_min_latency` finds through its spans.
use inference_mesh.Base.{
  ◌≡◌, refl, sym, subst, ◌⊎◌, none, some, List, [], ◌∷◌, map, All, All-map, sort_by-All, length, ok,
}
use inference_mesh.Base.HashMap.{HashMap}
use inference_mesh.P2p.Types.{RemoteModuleInfo, RemoteSpanInfo, online}
use inference_mesh.P2p.Sequence.{Spans}
use inference_mesh.P2p.Sequence.Search.{F64}
use inference_mesh.P2p.Sequence.Graph.{Latencies}
use inference_mesh.P2p.Sequence.Latency.{dijkstra_min_latency}
use inference_mesh.P2p.Sequence.Latency.Route.{Route}
use inference_mesh.P2p.Sequence.Latency.Found.{IsReflexive, dijkstra_min_latency_lem}
use inference_mesh.P2p.Sequence.Priority.{compute_spans, spans_by_priority}
use inference_mesh.P2p.Sequence.Priority.Listed.{IsSound, IsListed, compute_spans-AreSound}

module _ {P F : Type 0} where
  -- What is offered under some peer.
  abbrev IsOffered : List (RemoteModuleInfo P F) → RemoteSpanInfo P F → Type 0
  IsOffered ms span = IsSound ms online span.peer_id span

  values_sound :
      (ms : List (RemoteModuleInfo P F)) (spans : HashMap P (RemoteSpanInfo P F))
      → All (λ e. IsSound ms online e.0 e.1) spans
      → All (IsOffered ms) (map (λ e. e.1) spans)
  values_sound ms [] h = tt
  values_sound ms ((p, s) ∷ spans) (sound, h) = (
    (record {
      peer = refl;
      inside = sound.inside;
      ready = sound.ready;
      listed = subst (λ q. IsListed ms q s.server_info) (sym sound.peer) sound.listed;
    }),
    values_sound ms spans h,
  )

  -- No span ends behind the last block, and each is of a server that some block lists as online.
  spans_by_priority_lem :
      (same : Discrete P) (ms : List (RemoteModuleInfo P F))
      → All (IsOffered ms) (spans_by_priority same ms)
  unfolding spans_by_priority
  spans_by_priority_lem same ms =
      sort_by-All _ (IsOffered ms) _
        (values_sound ms (compute_spans same ms online) (compute_spans-AreSound same ms online))

-- With a number f64 whose infinity equals itself, dijkstra_min_latency on the spans by priority does
-- not panic and ends: it returns nothing, or spans that start where the one before ends, from the
-- first block to behind the last.
pub dijkstra_min_latency-spans_by_priority :
    (f : F64) {P : Type 0} (same : Discrete P) (rtts : Latencies P f.F)
    (ms : List (RemoteModuleInfo P f.F))
    → (before after : P) → IsReflexive f same rtts
    → (dijkstra_min_latency f same rtts before after (spans_by_priority same ms) (length ms)
        ≡ some (ok none))
      ⊎ ((route : Spans P f.F) × (dijkstra_min_latency f same rtts before after
              (spans_by_priority same ms)
              (length ms)
            ≡ some (ok (some route)))
          × Route (spans_by_priority same ms) 0 (length ms) route)
dijkstra_min_latency-spans_by_priority f same rtts ms before after r =
    dijkstra_min_latency_lem f same rtts (spans_by_priority same ms) (length ms) before after
      (All-map _ (λ s sound. sound.inside) (spans_by_priority_lem same ms)) r
