-- ===== src/P2p/Sequence/Containing.antt =====
-- The table of spans by block is the list of spans filtered by block (`spans_containing_block`).
use inference_mesh.Base.{
  ℕ, zero, suc, ◌+◌, ◌-◌, ◌<◌, ◌≡◌, refl, ap, ◌∙◌, sym, Bool, true, false, ◌&&◌, if◌then◌else◌, ltb,
  leb, ◌==◌, some, List, [], ◌∷◌, ◌++◌, append_assoc, append-nil, length, get_elem?, keep, arith,
}
use inference_mesh.P2p.Types.{RemoteSpanInfo}
use inference_mesh.P2p.Sequence.{
  Spans, push_at, empty_blocks, push_blocks, push_spans, spans_containing_block,
}

module _ {P F : Type 0} where
  abbrev pub covers : ℕ → RemoteSpanInfo P F → Bool
  covers b s = leb s.start b && ltb b s.end

  abbrev added : Bool → RemoteSpanInfo P F → Spans P F → Spans P F
  added hit s at = if hit then at ++ (s ∷ []) else at

  at_block : ℕ → List (Spans P F) → Spans P F
  at_block b [] = []
  at_block zero (at ∷ table) = at
  at_block (suc b) (at ∷ table) = at_block b table

  length-push_at :
      (i : ℕ) (s : RemoteSpanInfo P F) (table : List (Spans P F))
      → length (push_at i s table) ≡ length table
  unfolding push_at
  length-push_at i s [] = refl
  length-push_at zero s (at ∷ table) = refl
  length-push_at (suc i) s (at ∷ table) = ap suc (length-push_at i s table)

  at_block-push_at :
      (b i : ℕ) (s : RemoteSpanInfo P F) (table : List (Spans P F))
      → i < length table
      → at_block b (push_at i s table) ≡ added (b == i) s (at_block b table)
  unfolding push_at at_block
  at_block-push_at b i s [] h = elim h [ ]
  at_block-push_at zero zero s (at ∷ table) h = refl
  at_block-push_at (suc b) zero s (at ∷ table) h = ground arith
  at_block-push_at zero (suc i) s (at ∷ table) h = ground arith
  at_block-push_at (suc b) (suc i) s (at ∷ table) h = ground (arith, at_block-push_at b i s table)

  length-push_blocks :
      (n i left : ℕ) (s : RemoteSpanInfo P F) (table : List (Spans P F))
      → length (push_blocks n s i left table) ≡ length table
  unfolding push_blocks
  length-push_blocks n i zero s table = refl
  length-push_blocks n i (suc left) s table = ground (
    arith,
    length-push_blocks n (i + 1) left s (if ltb i n then push_at i s table else table),
    length-push_at i s table,
  )

  at_block-push_blocks :
      (b n i left : ℕ) (s : RemoteSpanInfo P F) (table : List (Spans P F))
      → length table ≡ n
      → b < n
      → at_block b (push_blocks n s i left table)
        ≡ added (leb i b && ltb b (i + left)) s (at_block b table)
  unfolding push_blocks
  at_block-push_blocks b n i zero s table e h = ground arith
  at_block-push_blocks b n i (suc left) s table e h = ground (
    arith,
    at_block-push_blocks b n (i + 1) left s (if ltb i n then push_at i s table else table),
    length-push_at i s table,
    at_block-push_at b i s table,
  )

  length-push_spans :
      (n : ℕ) (spans : Spans P F) (table : List (Spans P F))
      → length (push_spans n spans table) ≡ length table
  unfolding push_spans
  length-push_spans n [] table = refl
  length-push_spans n (s ∷ spans) table =
      length-push_spans n spans (push_blocks n s s.start (s.end - s.start) table)
      ∙ length-push_blocks n s.start (s.end - s.start) s table

  added-append :
      (hit : Bool) (s : RemoteSpanInfo P F) (at rest : Spans P F)
      → added hit s at ++ rest ≡ at ++ (if hit then s ∷ rest else rest)
  added-append true s at rest = append_assoc at (s ∷ []) rest
  added-append false s at rest = refl

  covers_lem :
      (b : ℕ) (s : RemoteSpanInfo P F)
      → (leb s.start b && ltb b (s.start + (s.end - s.start))) ≡ covers b s
  covers_lem b s = ground arith

  at_block-push_spans :
      (b n : ℕ) (spans : Spans P F) (table : List (Spans P F))
      → length table ≡ n
      → b < n
      → at_block b (push_spans n spans table) ≡ at_block b table ++ keep (covers b) spans
  unfolding push_spans
  at_block-push_spans b n [] table e h = sym (append-nil (at_block b table))
  at_block-push_spans b n (s ∷ spans) table e h =
      let count = s.end - s.start in
      at_block-push_spans b n spans (push_blocks n s s.start count table)
        (length-push_blocks n s.start count s table ∙ e) h
      ∙ rw (at_block-push_blocks b n s.start count s table e h, covers_lem b s)
          (added-append (covers b s) s (at_block b table) (keep (covers b) spans))

length-empty_blocks : (P F : Type 0) (n : ℕ) → length (empty_blocks {P = P} {F = F} n) ≡ n
unfolding empty_blocks
length-empty_blocks P F zero = refl
length-empty_blocks P F (suc n) = ap suc (length-empty_blocks P F n)

at_block-empty_blocks : (P F : Type 0) (b n : ℕ) → at_block b (empty_blocks {P = P} {F = F} n) ≡ []
unfolding empty_blocks at_block
at_block-empty_blocks P F b zero = refl
at_block-empty_blocks P F zero (suc n) = refl
at_block-empty_blocks P F (suc b) (suc n) = at_block-empty_blocks P F b n

module _ {P F : Type 0} where
  get_elem?-at_block :
      (b : ℕ) (table : List (Spans P F))
      → b < length table
      → get_elem? table b ≡ some (at_block b table)
  unfolding at_block
  get_elem?-at_block b [] h = elim h [ ]
  get_elem?-at_block zero (at ∷ table) h = refl
  get_elem?-at_block (suc b) (at ∷ table) h = get_elem?-at_block b table (omega arith)

  pub length-spans_containing_block :
      (spans : Spans P F) (n : ℕ) → length (spans_containing_block spans n) ≡ n
  unfolding spans_containing_block
  length-spans_containing_block spans n =
      length-push_spans n spans (empty_blocks n) ∙ length-empty_blocks P F n

  -- The table has one entry for each block, and the entry of a block lists the spans that contain the
  -- block, in the order of the given list; a span that reaches past the last block, or that ends
  -- before it starts, adds nothing outside of the blocks.
  pub get_elem?-spans_containing_block :
      (spans : Spans P F) (num_blocks b : ℕ)
      → b < num_blocks
      → (length (spans_containing_block spans num_blocks) ≡ num_blocks)
        × (get_elem? (spans_containing_block spans num_blocks) b ≡ some (keep (covers b) spans))
  unfolding spans_containing_block
  get_elem?-spans_containing_block spans n b h = (
    length-spans_containing_block spans n,
    get_elem?-at_block b (push_spans n spans (empty_blocks n))
          (omega (arith, length-spans_containing_block spans n))
        ∙ ap some (
            at_block-push_spans b n spans (empty_blocks n) (length-empty_blocks P F n) h
            ∙ rw (at_block-empty_blocks P F b n) refl),
  )
