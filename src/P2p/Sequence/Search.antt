-- ===== src/P2p/Sequence/Search.antt =====
-- src/p2p/src/sequence_manager.rs, `State` and the loops of `dijkstra_min_latency`: the search over
-- numbered nodes, from node 0 to node 1.
pub mod Links
pub mod Reaches
pub mod Rounds
use inference_mesh.Base.{
  ℕ, zero, suc, ◌+◌, Bool, true, false, ◌&&◌, ◌||◌, if◌then◌else◌, ltb, ◌==◌, Option, none, some,
  List, [], ◌∷◌, get_elem?, set, ℤ, pos, int_ltb, int_eqb, Result, ok, err, panic, ◌>>=◌, or_panic,
}

-- `f64` and its constants of this file: `as_i64` is the cast, which saturates, and `from_i64` the
-- cast back; `less` is `<`, and `equal` is `==`.
pub record F64 : Type 1 where
  pub F : Type 0
  pub zero : F
  pub infinity : F
  pub one : F
  pub two : F
  pub nanos_per_second : F
  pub overhead_delay : F
  pub default_inference_rps : F
  pub default_delay : F
  pub add : F → F → F
  pub mul : F → F → F
  pub div : F → F → F
  pub as_i64 : F → ℤ
  pub from_i64 : ℤ → F
  pub less : F → F → Bool
  pub equal : F → F → Bool

pub record State : Type 0 where
  pub cost_ns : ℤ
  pub node : ℕ

-- `self > other` in the order of `State`: the least cost is the greatest, then the greatest node.
abbrev pub above : State → State → Bool
above s other =
    int_ltb s.cost_ns other.cost_ns || (int_eqb s.cost_ns other.cost_ns && ltb other.node s.node)

-- `BinaryHeap::pop` on the list of the heap's elements: the greatest, and the others.
unfoldable pub pop_from : State → List State → State × List State
pop_from best [] = (best, [])
pop_from best (s ∷ heap) =
    let wins = above s best in
    let (greatest, others) = pop_from (if wins then s else best) heap in
    (greatest, (if wins then best else s) ∷ others)

abbrev pub pop : List State → Option (State × List State)
pop [] = none
pop (s ∷ heap) = some (pop_from s heap)

-- The loop over `prev`, which collects `path_nodes` in the order that `reverse` gives them.
unfoldable pub path_back : ℕ → List (Option ℕ) → ℕ → List ℕ → Option (Result (List ℕ))
path_back zero prev cur path_nodes = none
path_back (suc fuel) prev cur path_nodes = elim (get_elem? prev cur) [
  | none ↦ some panic
  | some none ↦ some (ok path_nodes)
  | some (some p) ↦ path_back fuel prev p (cur ∷ path_nodes)
]

module _ (f : F64) where
  open f use {F}

  pub record Progress : Type 0 where
    pub dist : List F
    pub prev : List (Option ℕ)
    pub heap : List State

  -- A round ends the loop, by `break` or since the heap is empty, or goes on.
  pub data Round : Type 0 where
    stopped goes : Progress → Round

  abbrev pub cost_to_nanos : F → ℤ
  cost_to_nanos cost = f.as_i64 (f.mul cost f.nanos_per_second)

  abbrev pub cost_of : State → F
  cost_of s = f.div (f.from_i64 s.cost_ns) f.nanos_per_second

  unfoldable pub improve : ℕ → ℕ → F → Progress → Progress
  improve node next next_cost st = record {
    dist = set st.dist next next_cost;
    prev = set st.prev next (some node);
    heap = record { cost_ns = cost_to_nanos next_cost; node = next } ∷ st.heap;
  }

  -- The inner loop over `adj[node]`. `prev` is as long as `dist`, so its index is checked as well.
  unfoldable pub relax : ℕ → F → List (ℕ × F) → Progress → Result Progress
  unfolding improve
  relax node cost [] st = ok st
  relax node cost ((next, weight) ∷ edges) st = do
    d ← or_panic (get_elem? st.dist next)
    let next_cost = f.add cost weight
    relax node cost edges (if f.less next_cost d then improve node next next_cost st else st)

  unfoldable pub follow : List (List (ℕ × F)) → State → Progress → Result Round
  unfolding relax
  follow adj s st = do
    edges ← or_panic (get_elem? adj s.node)
    next ← relax s.node (cost_of s) edges st
    ok (goes next)

  -- A popped state, which is left aside where its cost is above the distance of its node.
  unfoldable pub visit : List (List (ℕ × F)) → State → Progress → Result Round
  unfolding follow
  visit adj s st =
      let late = or_panic (get_elem? st.dist s.node) >>= λ d.
      if f.less d (cost_of s) then ok (goes st) else follow adj s st in
      if s.node == 1 then ok (stopped st) else late

  unfoldable pub round : List (List (ℕ × F)) → Progress → Result Round
  unfolding visit
  round adj st = elim (pop st.heap) [
    | none ↦ ok (stopped st)
    | some (s, heap) ↦ visit adj s (record st { heap = heap })
  ]

  -- The `while let` loop on fuel; `none` says that the fuel ran out.
  unfoldable pub search : ℕ → List (List (ℕ × F)) → Progress → Option (Result Progress)
  unfolding round
  search zero adj st = none
  search (suc fuel) adj st = elim (round adj st) [
    | ok (stopped last) ↦ some (ok last)
    | ok (goes next) ↦ search fuel adj next
    | err e ↦ some (err e)
    | panic ↦ some panic
  ]
