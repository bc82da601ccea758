-- ===== src/P2p/Sequence/Priority.antt =====
-- src/p2p/src/sequence_manager.rs: `compute_spans` and `spans_by_priority`, which turn the servers
-- known for each block into spans of blocks.
pub mod Grown
pub mod Listed
pub mod Listings
pub mod Routes
use inference_mesh.Base.{
  ℕ, ◌+◌, ◌-◌, ◌%◌, max, min, ltb, ◌==◌, u32_mod, u64_mod, if◌then◌else◌, Option, none, some, List,
  [], ◌∷◌, map, split, last, parse_unsigned, sort_by, length,
}
use inference_mesh.Base.HashMap
use inference_mesh.Base.HashMap.{HashMap}
use inference_mesh.P2p.Types
use inference_mesh.P2p.Types.{
  RemoteModuleInfo, RemoteSpanInfo, ServerInfo, ServerState, online, as_u8,
}
use inference_mesh.P2p.Sequence.{Spans}

abbrev pub option_parse : Option (List ℕ) → ℕ
option_parse none = 0
option_parse (some part) = elim (parse_unsigned u64_mod part) [ none ↦ 0 | some n ↦ n ]

module _ {P F : Type 0} where
  -- The number behind the last dot of the first block's name, or 0.
  abbrev pub first_offset : List (RemoteModuleInfo P F) → ℕ
  first_offset [] = 0
  first_offset (module_info ∷ _) = option_parse (last (split b'.' module_info.uid))

  -- The new span of one block.
  abbrev pub one_block : P → ServerInfo F → ℕ → RemoteSpanInfo P F
  one_block peer_id server_info block_idx = record {
    peer_id = peer_id;
    start = block_idx;
    end = block_idx + 1;
    server_info = server_info;
  }

  abbrev pub entry_or_insert :
      P → ServerInfo F → ℕ → Option (RemoteSpanInfo P F) → RemoteSpanInfo P F
  entry_or_insert peer_id server_info block_idx none = one_block peer_id server_info block_idx
  entry_or_insert peer_id server_info block_idx (some entry) = entry

  -- A higher state starts the span again, and the same state extends it.
  abbrev pub grow : ServerInfo F → ℕ → RemoteSpanInfo P F → RemoteSpanInfo P F
  grow server_info block_idx entry =
      if ltb (as_u8 entry.server_info.state) (as_u8 server_info.state)
      then record entry { start = block_idx; end = block_idx + 1; server_info = server_info }
      else if as_u8 entry.server_info.state == as_u8 server_info.state
      then record entry { end = block_idx + 1 }
      else entry

  -- The blocks that the server announces, counted from the first block.
  abbrev pub clip : ℕ → ℕ → Option ℕ → Option ℕ → RemoteSpanInfo P F → RemoteSpanInfo P F
  clip offset num_blocks (some sb) (some eb) entry = record entry {
    start = max entry.start (sb - offset % u32_mod);
    end = min entry.end (min (eb - offset % u32_mod) num_blocks);
  }
  clip offset num_blocks (some sb) none entry = entry
  clip offset num_blocks none eb entry = entry

  abbrev pub sorted_servers : HashMap P (ServerInfo F) → List (P × ServerInfo F)
  sorted_servers servers = sort_by (λ a b. ltb (as_u8 a.1.state) (as_u8 b.1.state)) servers

module _ {P F : Type 0} (same : Discrete P) (module_infos : List (RemoteModuleInfo P F)) where
  abbrev pub update : P → ServerInfo F → ℕ → Option (RemoteSpanInfo P F) → RemoteSpanInfo P F
  update peer_id server_info block_idx found =
      clip (first_offset module_infos) (length module_infos) server_info.start_block
        server_info.end_block
        (grow server_info block_idx (entry_or_insert peer_id server_info block_idx found))

  -- The loop over the servers of one block.
  unfoldable pub add_listed :
      ServerState
      → ℕ
      → List (P × ServerInfo F)
      → HashMap P (RemoteSpanInfo P F)
      → HashMap P (RemoteSpanInfo P F)
  add_listed min_state block_idx [] spans = spans
  add_listed min_state block_idx ((peer_id, server_info) ∷ servers) spans =
      add_listed min_state block_idx servers (
        if ltb (as_u8 server_info.state) (as_u8 min_state)
        then spans
        else HashMap.insert same peer_id
            (update peer_id server_info block_idx (HashMap.get same peer_id spans)) spans)

  -- The loop over the blocks.
  unfoldable pub add_modules :
      ServerState
      → ℕ
      → List (RemoteModuleInfo P F)
      → HashMap P (RemoteSpanInfo P F)
      → HashMap P (RemoteSpanInfo P F)
  unfolding add_listed
  add_modules min_state block_idx [] spans = spans
  add_modules min_state block_idx (module_info ∷ rest) spans =
      add_modules min_state (block_idx + 1) rest
        (add_listed min_state block_idx (sorted_servers module_info.servers) spans)

  -- No blocks have no spans, also without the first test.
  unfoldable pub compute_spans : ServerState → HashMap P (RemoteSpanInfo P F)
  unfolding add_modules
  compute_spans min_state = add_modules min_state 0 module_infos []

  -- `into_values` gives the spans in the order of the list.
  unfoldable pub spans_by_priority : Spans P F
  unfolding compute_spans
  spans_by_priority =
      sort_by (λ a b. ltb (Types.length b) (Types.length a)) (map (λ e. e.1) (compute_spans online))
