-- ===== src/P2p/Sequence/Graph/Numbers.antt =====
-- The numbers of the nodes (src/p2p/src/sequence_manager.rs).
use inference_mesh.Base.{
  ℕ, ◌+◌, ◌<◌, ◌≤◌, ◌≡◌, subst, inl, inr, ◌==◌, Bool-cases, Option, some, Option-cases, List, [],
  ◌∷◌, ◌++◌, length, length-append, get_elem?, get_elem?-append_one, All, All-map, arith,
}
use inference_mesh.Base.HashMap
use inference_mesh.Base.HashMap.{HashMap, contains_key, get-insert}
use inference_mesh.P2p.Sequence.{Spans}
use inference_mesh.P2p.Sequence.Graph.{Key, Nodes, same_key, add_node, add_row, add_rows}

module _ {P : Type 0} (same : Discrete P) where
  abbrev pub id_of : Nodes P → Key P → Option ℕ
  id_of ns key = HashMap.get (same_key same) key ns.node_ids

  abbrev pub Has : Nodes P → Key P → Type 0
  Has ns key = (i : ℕ) × (id_of ns key ≡ some i)

  -- Node 1 has the given key, ids are found where they say, and every later node has the property.
  pub record IsNumbered (end : Key P) (H : Key P → Type 0) (ns : Nodes P) : Type 0 where
    pub two : 2 ≤ length ns.nodes
    pub last : get_elem? ns.nodes 1 ≡ some end
    pub found :
        (key : Key P) (i : ℕ)
        → id_of ns key ≡ some i
        → (get_elem? ns.nodes i ≡ some key) × (2 ≤ i) × (i < length ns.nodes)
    pub holds : (key : Key P) (i : ℕ) → 2 ≤ i → get_elem? ns.nodes i ≡ some key → H key

  added : Key P → Nodes P → Nodes P
  added key ns = record {
    node_ids = HashMap.insert (same_key same) key (length ns.nodes) ns.node_ids;
    nodes = ns.nodes ++ (key ∷ []);
  }

  added-IsNumbered :
      (end : Key P) (H : Key P → Type 0) (key : Key P) (ns : Nodes P)
      → IsNumbered end H ns
      → H key
      → IsNumbered end H (added key ns)
  unfolding added
  added-IsNumbered end H key ns num h = record {
    two = omega (arith, longer, num.two);
    last = ground (arith, get_elem?-append_one ns.nodes 1 key, num.two, num.last);
    found = found;
    holds = holds;
  }
    where
      longer : length (ns.nodes ++ (key ∷ [])) ≡ length ns.nodes + 1
      longer = length-append ns.nodes (key ∷ [])

      found :
          (k : Key P) (i : ℕ)
          → id_of (added key ns) k ≡ some i
          → (get_elem? (ns.nodes ++ (key ∷ [])) i ≡ some k)
            × (2 ≤ i)
            × (i < length (ns.nodes ++ (key ∷ [])))
      found k i e = elim (same_key same key k) [
        | yes is_k ↦
            let at : length ns.nodes ≡ i =
              ground (arith, get-insert (same_key same) key k (length ns.nodes) ns.node_ids) in
            (
              ground (arith, get_elem?-append_one ns.nodes i key),
              omega (arith, num.two, at),
              omega (arith, at, longer),
            )
        | no other ↦
            let (a, b, c) =
              num.found k i
                (ground (arith, get-insert (same_key same) key k (length ns.nodes) ns.node_ids)) in
            (ground (arith, get_elem?-append_one ns.nodes i key, a, c), b, omega (arith, c, longer))
      ]

      holds : (k : Key P) (i : ℕ) → 2 ≤ i → get_elem? (ns.nodes ++ (key ∷ [])) i ≡ some k → H k
      holds k i late e = elim (Bool-cases (i == length ns.nodes)) [
        | inl new ↦ subst H (ground (arith, get_elem?-append_one ns.nodes i key)) h
        | inr old ↦ num.holds k i late (ground (arith, get_elem?-append_one ns.nodes i key))
      ]

  add_node_lem :
      (end : Key P) (H : Key P → Type 0) (key : Key P) (ns : Nodes P)
      → IsNumbered end H ns
      → H key
      → IsNumbered end H (add_node same key ns)
        × Has (add_node same key ns) key
        × ((k : Key P) → Has ns k → Has (add_node same key ns) k)
  unfolding add_node added
  add_node_lem end H key ns num h = elim (Option-cases (id_of ns key)) [
    | inr (i, e) ↦ rw e (num, (i, e), λ k has. has)
    | inl fresh ↦ rw fresh (
      added-IsNumbered end H key ns num h,
      (
        length ns.nodes,
        rw (get-insert (same_key same) key key (length ns.nodes) ns.node_ids) (ground arith),
      ),
      kept,
    )
  ]
    where
      kept : (k : Key P) → Has ns k → Has (added key ns) k
      kept k (i, e) = elim (same_key same key k) [
        | yes is_k ↦ (
          length ns.nodes,
          ground (arith, get-insert (same_key same) key k (length ns.nodes) ns.node_ids),
        )
        | no other ↦
            (i, ground (arith, e, get-insert (same_key same) key k (length ns.nodes) ns.node_ids))
      ]

  module _ {F : Type 0} (end : Key P) (H : Key P → Type 0) where
    add_row_lem :
        (b : ℕ) (row : Spans P F) (ns : Nodes P)
        → IsNumbered end H ns
        → All (λ s. H (s.peer_id, b)) row
        → IsNumbered end H (add_row same b row ns)
          × All (λ s. Has (add_row same b row ns) (s.peer_id, b)) row
          × ((k : Key P) → Has ns k → Has (add_row same b row ns) k)
    unfolding add_row
    add_row_lem b [] ns num h = (num, tt, λ k has. has)
    add_row_lem b (s ∷ row) ns num (h, hs) =
        let (num1, has1, keep1) = add_node_lem end H (s.peer_id, b) ns num h in
        let (num2, has2, keep2) = add_row_lem b row (add_node same (s.peer_id, b) ns) num1 hs in
        (num2, (keep2 (s.peer_id, b) has1, has2), λ k has. keep2 k (keep1 k has))

    abbrev pub RowsHave : (Key P → Type 0) → ℕ → List (Spans P F) → Type 0
    RowsHave G b [] = Unit
    RowsHave G b (row ∷ rows) = All (λ s. G (s.peer_id, b)) row × RowsHave G (b + 1) rows

    -- Every span of the table gets a node, and no other node has a number.
    pub add_rows_lem :
        (b : ℕ) (rows : List (Spans P F)) (ns : Nodes P)
        → IsNumbered end H ns
        → RowsHave H b rows
        → IsNumbered end H (add_rows same b rows ns)
          × RowsHave (Has (add_rows same b rows ns)) b rows
          × ((k : Key P) → Has ns k → Has (add_rows same b rows ns) k)
    unfolding add_rows
    add_rows_lem b [] ns num h = (num, tt, λ k has. has)
    add_rows_lem b (row ∷ rows) ns num (h, hs) =
        let (num1, has1, keep1) = add_row_lem b row ns num h in
        let (num2, has2, keep2) = add_rows_lem (b + 1) rows (add_row same b row ns) num1 hs in
        (
          num2,
          (All-map row (λ s has. keep2 (s.peer_id, b) has) has1, has2),
          λ k has. keep2 k (keep1 k has),
        )
