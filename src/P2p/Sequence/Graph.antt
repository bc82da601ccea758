-- ===== src/P2p/Sequence/Graph.antt =====
-- src/p2p/src/sequence_manager.rs, the graph that `dijkstra_min_latency` builds: a node for each peer
-- and block, and an edge, with its delay, for each way to go on.
pub mod Layers
pub mod Numbers
pub mod Edges
use inference_mesh.Base.{
  ℕ, zero, suc, ◌+◌, Bool, true, false, ◌&&◌, if◌then◌else◌, ltb, ◌==◌, Option, none, some, List,
  [], ◌∷◌, ◌++◌, length, get_elem?, set, ℕ_discrete, Result, ok, err, panic, ◌>>=◌, or_panic,
}
use inference_mesh.Base.HashMap
use inference_mesh.Base.HashMap.{HashMap, contains_key, pair_discrete}
use inference_mesh.Protocol.Schema.{Bytes}
use inference_mesh.P2p.Types.{RemoteSpanInfo}
use inference_mesh.P2p.Sequence.{Spans}
use inference_mesh.P2p.Sequence.Search.{F64}

abbrev pub unwrap_or {ℓ} : {A : Type ℓ} → Option A → A → A
unwrap_or none d = d
unwrap_or (some a) d = a

abbrev pub or_else {ℓ} : {A : Type ℓ} → Option A → Option A → Option A
or_else none other = other
or_else (some a) other = some a

-- A peer and a block. Nodes 0 and 1 stand for the client before and after.
abbrev pub Key : Type 0 → Type 0
Key P = P × ℕ

pub record Nodes (P : Type 0) : Type 0 where
  pub node_ids : HashMap (Key P) ℕ
  pub nodes : List (Key P)

-- `adj[from].push(edge)`.
unfoldable pub push_edge {ℓ} : {E : Type ℓ} → List (List E) → ℕ → E → Result (List (List E))
push_edge adj from edge = do
  edges ← or_panic (get_elem? adj from)
  ok (set adj from (edges ++ (edge ∷ [])))

module _ {P : Type 0} (same : Discrete P) where
  abbrev pub same_key : Discrete (Key P)
  same_key = pair_discrete same ℕ_discrete

  unfoldable pub add_node : Key P → Nodes P → Nodes P
  add_node key ns = if contains_key same_key key ns.node_ids then ns else record {
    node_ids = HashMap.insert same_key key (length ns.nodes) ns.node_ids;
    nodes = ns.nodes ++ (key ∷ []);
  }

  unfoldable pub add_row : {F : Type 0} → ℕ → Spans P F → Nodes P → Nodes P
  unfolding add_node
  add_row block_idx [] ns = ns
  add_row block_idx (span ∷ spans) ns =
      add_row block_idx spans (add_node (span.peer_id, block_idx) ns)

  unfoldable pub add_rows : {F : Type 0} → ℕ → List (Spans P F) → Nodes P → Nodes P
  unfolding add_row
  add_rows block_idx [] ns = ns
  add_rows block_idx (row ∷ containing) ns =
      add_rows (block_idx + 1) containing (add_row block_idx row ns)

  -- `node_ids[&key]`.
  abbrev pub node_id : Nodes P → Key P → Result ℕ
  node_id ns key = or_panic (HashMap.get same_key key ns.node_ids)

-- What the delays depend on. `to_base58` is a PeerId's text.
pub record Latencies (P F : Type 0) : Type 0 where
  pub client_server_rtts : HashMap P F
  pub server_server_rtts : HashMap (P × P) F
  pub to_base58 : P → Bytes
  pub same_text : Discrete Bytes

module _ (f : F64) {P : Type 0} (same : Discrete P) (rtts : Latencies P f.F) where
  open f use {F}

  abbrev pub Edges : Type 0
  Edges = List (List (ℕ × F))

  abbrev pub client_rtt : P → F
  client_rtt p = unwrap_or (HashMap.get same p rtts.client_server_rtts) f.default_delay

  abbrev pub server_rtt : RemoteSpanInfo P F → RemoteSpanInfo P F → F
  server_rtt span next_span =
      unwrap_or
        (or_else
          (HashMap.get (pair_discrete same same) (span.peer_id, next_span.peer_id)
            rtts.server_server_rtts)
          (elim span.server_info.next_pings [
            | none ↦ none
            | some pings ↦ HashMap.get rtts.same_text (rtts.to_base58 next_span.peer_id) pings
          ]))
        f.default_delay

  abbrev pub first_delay : RemoteSpanInfo P F → F
  first_delay span = f.add (f.div (client_rtt span.peer_id) f.two) f.overhead_delay

  abbrev pub last_delay : RemoteSpanInfo P F → F
  last_delay span = f.div (client_rtt span.peer_id) f.two

  abbrev pub next_delay : RemoteSpanInfo P F → RemoteSpanInfo P F → F
  next_delay span next_span = f.add (f.div (server_rtt span next_span) f.two) f.overhead_delay

  abbrev pub same_delay : RemoteSpanInfo P F → F
  same_delay span = f.div f.one (unwrap_or span.server_info.inference_rps f.default_inference_rps)

  unfoldable pub link_first : Nodes P → Spans P F → Edges → Result Edges
  unfolding push_edge
  link_first ns [] adj = ok adj
  link_first ns (span ∷ spans) adj = do
    to ← node_id same ns (span.peer_id, 0)
    next ← push_edge adj 0 (to, first_delay span)
    link_first ns spans next

  unfoldable pub link_last : ℕ → Nodes P → Spans P F → Edges → Result Edges
  unfolding push_edge
  link_last last ns [] adj = ok adj
  link_last last ns (span ∷ spans) adj = do
    from ← node_id same ns (span.peer_id, last)
    next ← push_edge adj from (1, last_delay span)
    link_last last ns spans next

  -- From a block that is a span's last to every span of the next block.
  unfoldable pub link_next : Nodes P → ℕ → RemoteSpanInfo P F → Spans P F → Edges → Result Edges
  unfolding push_edge
  link_next ns block_idx span [] adj = ok adj
  link_next ns block_idx span (next_span ∷ spans) adj = do
    from ← node_id same ns (span.peer_id, block_idx)
    to ← node_id same ns (next_span.peer_id, block_idx + 1)
    next ← push_edge adj from (to, next_delay span next_span)
    link_next ns block_idx span spans next

  -- From a block to the same peer's next block.
  unfoldable pub link_same : Nodes P → ℕ → RemoteSpanInfo P F → Edges → Result Edges
  unfolding push_edge
  link_same ns block_idx span adj = do
    from ← node_id same ns (span.peer_id, block_idx)
    to ← node_id same ns (span.peer_id, block_idx + 1)
    push_edge adj from (to, same_delay span)

  unfoldable pub link_span : Nodes P → ℕ → ℕ → RemoteSpanInfo P F → Spans P F → Edges → Result Edges
  unfolding link_same link_next
  link_span ns num_blocks block_idx span next_row adj = do
    next ← (if ltb (block_idx + 1) span.end then link_same ns block_idx span adj else ok adj)
    if ltb (block_idx + 1) num_blocks && (span.end == block_idx + 1)
        then link_next ns block_idx span next_row next
        else ok next

  unfoldable pub link_row : Nodes P → ℕ → ℕ → Spans P F → Spans P F → Edges → Result Edges
  unfolding link_span
  link_row ns num_blocks block_idx [] next_row adj = ok adj
  link_row ns num_blocks block_idx (span ∷ spans) next_row adj = do
    next ← link_span ns num_blocks block_idx span next_row adj
    link_row ns num_blocks block_idx spans next_row next

  -- `containing[block_idx + 1]`, which is looked up only where it is there.
  abbrev pub first_row : List (Spans P F) → Spans P F
  first_row [] = []
  first_row (row ∷ rows) = row

  unfoldable pub link_rows : Nodes P → ℕ → ℕ → List (Spans P F) → Edges → Result Edges
  unfolding link_row
  link_rows ns num_blocks block_idx [] adj = ok adj
  link_rows ns num_blocks block_idx (row ∷ rows) adj = do
    next ← link_row ns num_blocks block_idx row (first_row rows) adj
    link_rows ns num_blocks (block_idx + 1) rows next
