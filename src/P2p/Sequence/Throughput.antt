-- ===== src/P2p/Sequence/Throughput.antt =====
-- The sequence of `make_sequence_max_throughput` (src/p2p/src/sequence_manager.rs).
use inference_mesh.Base.{
  ℕ, zero, suc, ◌+◌, ◌-◌, ◌<◌, ◌≤◌, ◌≡◌, refl, ap, ◌∙◌, ◌⊎◌, inl, inr, false, ltb, Bool-cases, none,
  some, [], ◌∷◌, ◌++◌, append_assoc, append-nil, get_elem?_out, keep, min, All, arith, ltb→lt,
}
use inference_mesh.P2p.Types.{RemoteSpanInfo}
use inference_mesh.P2p.Sequence.{
  Spans, first_at, piece, sequence_loop, spans_containing_block, make_sequence_max_throughput,
}
use inference_mesh.P2p.Sequence.Containing.{
  covers, length-spans_containing_block, get_elem?-spans_containing_block,
}

module _ {P F : Type 0} where
  -- The piece is part of a given span, on the same peer and with the same description.
  pub data IsPart (x : RemoteSpanInfo P F) : Spans P F → Type 0 where
    here :
        {s : RemoteSpanInfo P F} {spans : Spans P F}
        → s.start ≤ x.start
        → x.end ≤ s.end
        → x.peer_id ≡ s.peer_id
        → x.server_info ≡ s.server_info
        → IsPart x (s ∷ spans)
    there : {s : RemoteSpanInfo P F} {spans : Spans P F} → IsPart x spans → IsPart x (s ∷ spans)

  -- The pieces are not empty, follow one another from `from` to `to`, and are parts of given spans.
  abbrev pub Tiles : Spans P F → ℕ → ℕ → Spans P F → Type 0
  Tiles spans from to [] = to ≤ from
  Tiles spans from to (x ∷ xs) =
      (x.start ≡ from) × (from < x.end) × (x.end ≤ to) × IsPart x spans × Tiles spans x.end to xs

  abbrev pub IsUncovered : ℕ → RemoteSpanInfo P F → Type 0
  IsUncovered b s = covers b s ≡ false

  -- A block that is asked for and that is not there, or that no span contains.
  pub record Gap (spans : Spans P F) (num_blocks from to : ℕ) : Type 0 where
    pub block : ℕ
    pub from_le : from ≤ block
    pub lt_to : block < to
    pub uncovered : (num_blocks ≤ block) ⊎ All (IsUncovered block) spans

  keep_first :
      (b e : ℕ) (spans : Spans P F)
      → b < e
      → ((keep (covers b) spans ≡ []) × All (IsUncovered b) spans)
        ⊎ ((s : RemoteSpanInfo P F) × (rest : Spans P F) × (keep (covers b) spans ≡ s ∷ rest)
            × (b < min s.end e)
            × IsPart (piece s b e) spans)
  keep_first b e [] h = inl (refl, tt)
  keep_first b e (x ∷ spans) h = elim (Bool-cases (covers b x)) [
    | inl hit ↦ inr (
      x,
      keep (covers b) spans,
      rw hit refl,
      ground arith,
      here (ground arith) (omega arith) refl refl,
    )
    | inr miss ↦ elim (keep_first b e spans h) [
      | inl (empty, all) ↦ inl (rw (miss, empty) refl, (miss, all))
      | inr (s, rest, eq, lt, part) ↦ inr (s, rest, rw (miss, eq) refl, lt, there part)
    ]
  ]

  module _ (spans : Spans P F) (num_blocks to : ℕ) where
    -- What the loop looks up: a gap, or a span to go on with.
    lookup_first :
        (i : ℕ)
        → i < to
        → ((first_at (spans_containing_block spans num_blocks) i ≡ none)
            × Gap spans num_blocks i to)
          ⊎ ((s : RemoteSpanInfo P F) × (first_at (spans_containing_block spans num_blocks) i
                ≡ some s)
              × (i < min s.end to)
              × IsPart (piece s i to) spans)
    lookup_first i h = elim (Bool-cases (ltb i num_blocks)) [
      | inl inside ↦
          let found =
            (get_elem?-spans_containing_block spans num_blocks i (ltb→lt i num_blocks inside)).1 in
          elim (keep_first i to spans h) [
            | inl (empty, all) ↦ inl (
              rw (found, empty) refl,
              record { block = i; from_le = omega arith; lt_to = h; uncovered = inr all },
            )
            | inr (s, rest, eq, lt, part) ↦ inr (s, rw (found, eq) refl, lt, part)
          ]
      | inr outside ↦
          let size = length-spans_containing_block spans num_blocks in
          let past : num_blocks ≤ i = ground arith in
          inl (
            rw (get_elem?_out (spans_containing_block spans num_blocks) i (omega (arith, size)))
                refl,
            record { block = i; from_le = omega arith; lt_to = h; uncovered = inl past },
          )
    ]

    sequence_loop_lem :
        (fuel i : ℕ) (result : Spans P F)
        → to - i < fuel
        → ((seq : Spans P F) × (sequence_loop fuel
                (spans_containing_block spans num_blocks)
                i
                to
                result
              ≡ some (some (result ++ seq)))
            × Tiles spans i to seq)
          ⊎ ((sequence_loop fuel (spans_containing_block spans num_blocks) i to result ≡ some none)
              × Gap spans num_blocks i to)
    unfolding sequence_loop
    sequence_loop_lem zero i result h = elim h [ ]
    sequence_loop_lem (suc fuel) i result h = elim (Bool-cases (ltb i to)) [
      | inr done ↦ inl ([], rw (done, sequence_loop, append-nil result) refl, ground arith)
      | inl more ↦ elim (lookup_first i (ltb→lt i to more)) [
        | inl (absent, gap) ↦ inr (rw (more, sequence_loop) (rw (absent, sequence_loop) refl), gap)
        | inr (s, found, lt, part) ↦
            let next = piece s i to in
            elim (sequence_loop_lem fuel next.end (result ++ (next ∷ [])) (omega arith)) [
              | inl (seq, ran, tiles) ↦ inl (
                next ∷ seq,
                rw (more, sequence_loop)
                    (rw (found, sequence_loop)
                      (ran
                        ∙ ap (λ (l : Spans P F). some (some l))
                            (append_assoc result (next ∷ []) seq))),
                (refl, lt, omega arith, part, tiles),
              )
              | inr (ran, gap) ↦ inr (
                rw (more, sequence_loop) (rw (found, sequence_loop) ran),
                record {
                  block = gap.block;
                  from_le = omega (arith, gap.from_le);
                  lt_to = gap.lt_to;
                  uncovered = gap.uncovered;
                },
              )
            ]
      ]
    ]

    -- The loop always ends. Either it returns non-empty pieces of the given spans that follow one
    -- another from the first block asked for to the last, or it returns nothing, and then some block
    -- that was asked for is out of range or in no span.
    pub make_sequence_max_throughput_lem :
        (start : ℕ)
        → ((seq : Spans P F) × (make_sequence_max_throughput spans num_blocks start to
              ≡ some (some seq))
            × Tiles spans start to seq)
          ⊎ ((make_sequence_max_throughput spans num_blocks start to ≡ some none)
              × Gap spans num_blocks start to)
    unfolding make_sequence_max_throughput
    make_sequence_max_throughput_lem start =
        sequence_loop_lem (to - start + 1) start [] (omega arith)
