-- ===== src/P2p/Sequence.antt =====
-- src/p2p/src/sequence_manager.rs: which spans of blocks, on which peers, make up the whole model.
pub mod Containing
pub mod Throughput
pub mod Search
pub mod Graph
pub mod Latency
pub mod Priority
use inference_mesh.Base.{
  ℕ, zero, suc, ◌+◌, ◌-◌, ◌<◌, Bool, true, false, ◌&&◌, if◌then◌else◌, ltb, leb, Option, none, some,
  List, [], ◌∷◌, ◌++◌, length, get_elem?, min,
}
use inference_mesh.P2p.Types.{RemoteSpanInfo}

abbrev pub Spans : Type 0 → Type 0 → Type 0
Spans P F = List (RemoteSpanInfo P F)

module _ {P F : Type 0} where
  -- `result[block_idx].push(span.clone())`.
  unfoldable pub push_at : ℕ → RemoteSpanInfo P F → List (Spans P F) → List (Spans P F)
  push_at i span [] = []
  push_at zero span (at ∷ result) = (at ++ (span ∷ [])) ∷ result
  push_at (suc i) span (at ∷ result) = at ∷ push_at i span result

  -- `vec![Vec::new(); num_blocks]`.
  unfoldable pub empty_blocks : ℕ → List (Spans P F)
  empty_blocks zero = []
  empty_blocks (suc n) = [] ∷ empty_blocks n

  -- The inner loop, with the number of rounds that are left.
  unfoldable pub push_blocks : ℕ → RemoteSpanInfo P F → ℕ → ℕ → List (Spans P F) → List (Spans P F)
  push_blocks num_blocks span block_idx zero result = result
  push_blocks num_blocks span block_idx (suc left) result =
      push_blocks num_blocks span (block_idx + 1) left
        (if ltb block_idx num_blocks then push_at block_idx span result else result)

  unfoldable pub push_spans : ℕ → Spans P F → List (Spans P F) → List (Spans P F)
  unfolding push_blocks
  push_spans num_blocks [] result = result
  push_spans num_blocks (span ∷ spans) result =
      push_spans num_blocks spans
        (push_blocks num_blocks span span.start (span.end - span.start) result)

  unfoldable pub spans_containing_block : Spans P F → ℕ → List (Spans P F)
  unfolding push_spans empty_blocks
  spans_containing_block spans num_blocks = push_spans num_blocks spans (empty_blocks num_blocks)

  -- `containing[current_index][0]`, or `none` where the index is out of range or no span is there.
  abbrev pub first_of : Option (Spans P F) → Option (RemoteSpanInfo P F)
  first_of none = none
  first_of (some []) = none
  first_of (some (span ∷ _)) = some span

  abbrev pub first_at : List (Spans P F) → ℕ → Option (RemoteSpanInfo P F)
  first_at containing i = first_of (get_elem? containing i)

  -- The span that the loop takes, cut to what is still wanted.
  abbrev pub piece : RemoteSpanInfo P F → ℕ → ℕ → RemoteSpanInfo P F
  piece chosen current_index end_index = record chosen {
    start = current_index;
    end = min chosen.end end_index;
  }

  -- The `while` loop on fuel: the outer `none` says that the fuel ran out, the inner one that the
  -- code returns `None`.
  unfoldable pub sequence_loop :
      ℕ → List (Spans P F) → ℕ → ℕ → Spans P F → Option (Option (Spans P F))
  sequence_loop zero containing current_index end_index result = none
  sequence_loop (suc fuel) containing current_index end_index result =
      elim (ltb current_index end_index) [
        | false ↦ some (some result)
        | true ↦ elim (first_at containing current_index) [
          | none ↦ some none
          | some chosen ↦
              let next = piece chosen current_index end_index in
              sequence_loop fuel containing next.end end_index (result ++ (next ∷ []))
        ]
      ]

  unfoldable pub make_sequence_max_throughput : Spans P F → ℕ → ℕ → ℕ → Option (Option (Spans P F))
  unfolding sequence_loop spans_containing_block
  make_sequence_max_throughput spans num_blocks start_index end_index =
      sequence_loop (end_index - start_index + 1) (spans_containing_block spans num_blocks)
        start_index end_index []
