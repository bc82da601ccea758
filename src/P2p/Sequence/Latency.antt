-- ===== src/P2p/Sequence/Latency.antt =====
-- src/p2p/src/sequence_manager.rs, `dijkstra_min_latency`.
pub mod Route
pub mod Found
pub mod Rows
pub mod Complete
use inference_mesh.Base.{
  ℕ, zero, suc, ◌+◌, ◌-◌, Bool, true, false, ◌||◌, if◌then◌else◌, ite, ltb, ◌==◌, Option, none,
  some, List, [], ◌∷◌, ◌++◌, length, get_elem?, set, replicate, keep, ℤ, pos, Result, ok, err,
  panic, ◌>>=◌, or_panic,
}
use inference_mesh.P2p.Types
use inference_mesh.P2p.Types.{RemoteSpanInfo, ServerInfo, online}
use inference_mesh.P2p.ProviderCache.{is_empty}
use inference_mesh.P2p.Sequence.{Spans, spans_containing_block}
use inference_mesh.P2p.Sequence.Search.{F64, State, Progress, search, path_back}
use inference_mesh.P2p.Sequence.Search.Links.{rounds}
use inference_mesh.P2p.Sequence.Graph.{
  Key, Nodes, Latencies, Edges, add_rows, link_first, link_last, link_rows, unwrap_or,
}

-- The outer `none` of a loop's result says that its fuel ran out.
abbrev pub and_then {ℓ κ} :
    {A : Type ℓ} {B : Type κ} → Option (Result A) → (A → Option (Result B)) → Option (Result B)
and_then none next = none
and_then (some (ok a)) next = next a
and_then (some (err e)) next = some (err e)
and_then (some panic) next = some panic

-- How many edges there are, which bounds how many a node has.
abbrev pub edge_count {ℓ} : {E : Type ℓ} → List (List E) → ℕ
edge_count [] = 0
edge_count (es ∷ adj) = length es + edge_count adj

module _ {P F : Type 0} (same : Discrete P) where
  -- `containing[i]` of a table that has the row.
  abbrev pub row_at : List (Spans P F) → ℕ → Spans P F
  row_at containing i = unwrap_or (get_elem? containing i) []

  -- `result.last().unwrap().peer_id == peer_id`, and false where there is no last.
  unfoldable pub last_is : Spans P F → P → Bool
  last_is [] p = false
  last_is (x ∷ []) p = ite (same x.peer_id p) true false
  last_is (x ∷ y ∷ xs) p = last_is (y ∷ xs) p

  -- `result.last_mut().unwrap().end = end`.
  unfoldable pub extend_last : Spans P F → ℕ → Spans P F
  extend_last [] end = []
  extend_last (x ∷ []) end = record x { end = end } ∷ []
  extend_last (x ∷ y ∷ xs) end = x ∷ extend_last (y ∷ xs) end

  -- The description of the first span of the peer in the row.
  unfoldable pub find_info : F → Spans P F → P → ServerInfo F
  find_info zero_f [] p = Types.new online zero_f
  find_info zero_f (s ∷ row) p = ite (same s.peer_id p) s.server_info (find_info zero_f row p)

  unfoldable pub add_block : F → List (Spans P F) → Key P → Spans P F → Result (Spans P F)
  unfolding last_is extend_last find_info
  add_block zero_f containing (p, block_idx) result =
      let fresh = or_panic (get_elem? containing block_idx) >>= λ row. ok (
        result
        ++ (record {
          peer_id = p;
          start = block_idx;
          end = block_idx + 1;
          server_info = find_info zero_f row p;
        }
            ∷ [])) in
      if last_is result p then ok (extend_last result (block_idx + 1)) else fresh

  -- The spans of the path's nodes before node 1.
  unfoldable pub collect :
      F → List (Key P) → List (Spans P F) → List ℕ → Spans P F → Result (Spans P F)
  unfolding add_block
  collect zero_f nodes containing [] result = ok result
  collect zero_f nodes containing (n ∷ path) result =
      let rest = or_panic (get_elem? nodes n) >>= λ key.
      add_block zero_f containing key result >>= λ next.
      collect zero_f nodes containing path next in
      if n == 1 then ok result else rest

  abbrev pub retain : Spans P F → Spans P F
  retain = keep (λ s. ltb 0 (Types.length s))

module _ (f : F64) {P : Type 0} (same : Discrete P) (rtts : Latencies P f.F) where
  open f use {F}

  -- The nodes of the client, under two random peers, and those of the table.
  unfoldable pub number_nodes : P → P → ℕ → List (Spans P F) → Nodes P
  number_nodes before after num_blocks containing =
      add_rows same 0 containing
        (record { node_ids = []; nodes = (before, 0) ∷ (after, num_blocks) ∷ [] })

  unfoldable pub build_edges : Nodes P → ℕ → List (Spans P F) → Result (Edges f same rtts)
  build_edges ns num_blocks containing = do
    first ← link_first f same rtts ns (row_at same containing 0) (replicate (length ns.nodes) [])
    second ←
        link_last f same rtts (num_blocks - 1) ns (row_at same containing (num_blocks - 1)) first
    link_rows f same rtts ns num_blocks 0 containing second

  abbrev pub start_progress : ℕ → Progress f
  start_progress n = record {
    dist = set (replicate n f.infinity) 0 f.zero;
    prev = replicate n none;
    heap = record { cost_ns = pos 0; node = 0 } ∷ [];
  }

  -- From the end of the search on.
  unfoldable pub read_path :
      Nodes P → ℕ → List (Spans P F) → Progress f → Option (Result (Option (Spans P F)))
  unfolding collect
  read_path ns num_blocks containing st =
      let found = and_then (path_back (num_blocks + 2) st.prev 1 []) (λ path_nodes. some (
        collect same f.zero ns.nodes containing path_nodes [] >>= λ result.
        ok (some (retain same result)))) in
      and_then (some (or_panic (get_elem? st.dist 1)))
        (λ x. if f.equal x f.infinity then some (ok none) else found)

  -- Enough fuel for the search: as many rounds as the first state can lead to, and one.
  unfoldable pub run_search :
      Nodes P → ℕ → List (Spans P F) → Edges f same rtts → Option (Result (Option (Spans P F)))
  unfolding read_path
  run_search ns num_blocks containing adj =
      and_then
        (search f (rounds (edge_count adj) (num_blocks + 1) + 1) adj
          (start_progress (length ns.nodes)))
        (read_path ns num_blocks containing)

  unfoldable pub dijkstra_min_latency : P → P → Spans P F → ℕ → Option (Result (Option (Spans P F)))
  unfolding number_nodes build_edges run_search
  dijkstra_min_latency before after spans num_blocks =
      let containing = spans_containing_block spans num_blocks in
      let ns = number_nodes before after num_blocks containing in
      if is_empty containing
        || (is_empty (row_at same containing 0)
            || is_empty (row_at same containing (num_blocks - 1)))
      then some (ok none)
      else and_then (some (build_edges ns num_blocks containing))
          (run_search ns num_blocks containing)
