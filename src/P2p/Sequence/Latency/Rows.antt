-- ===== src/P2p/Sequence/Latency/Rows.antt =====
-- The rows of the table have their nodes (src/p2p/src/sequence_manager.rs).
use inference_mesh.Base.{
  ℕ, zero, suc, ◌+◌, ◌<◌, ◌≤◌, ◌≡◌, refl, subst, inl, inr, Bool, true, Bool-cases, some, List, [],
  ◌∷◌, length, get_elem?, keep, All, arith,
}
use inference_mesh.P2p.Types.{RemoteSpanInfo}
use inference_mesh.P2p.Sequence.{Spans, spans_containing_block}
use inference_mesh.P2p.Sequence.Containing.{
  covers, get_elem?-spans_containing_block, length-spans_containing_block,
}
use inference_mesh.P2p.Sequence.Search.{F64}
use inference_mesh.P2p.Sequence.Graph.{Key, Nodes, Latencies}
use inference_mesh.P2p.Sequence.Graph.Numbers.{Has, IsNumbered, RowsHave}
use inference_mesh.P2p.Sequence.Graph.Layers.{IsReady, RowsReady}
use inference_mesh.P2p.Sequence.Latency.Route.{Hosts}

module _ {ℓ} {A : Type ℓ} where
  -- What holds of the elements that pass a test.
  abbrev pub Passing {κ} : (A → Bool) → (A → Type κ) → List A → Type κ
  Passing t Q [] = Unit
  Passing t Q (x ∷ xs) = (t x ≡ true → Q x) × Passing t Q xs

  pub All-keep {κ} :
      (t : A → Bool) (Q : A → Type κ) (xs : List A) → Passing t Q xs → All Q (keep t xs)
  All-keep t Q [] h = tt
  All-keep t Q (x ∷ xs) (h, hs) = elim (Bool-cases (t x)) [
    | inl yes_x ↦ rw yes_x (h yes_x, All-keep t Q xs hs)
    | inr no_x ↦ rw no_x (All-keep t Q xs hs)
  ]

  pub Passing-keep {κ} :
      (t : A → Bool) (Q : A → Type κ) (xs : List A) → All Q (keep t xs) → Passing t Q xs
  Passing-keep t Q [] h = tt
  Passing-keep t Q (x ∷ xs) h = elim (Bool-cases (t x)) [
    | inl yes_x ↦ let (q, qs) = rw yes_x at h in (λ _. q, Passing-keep t Q xs qs)
    | inr no_x ↦ (λ e. absurd (ground (arith, e, no_x)), Passing-keep t Q xs (rw no_x at h))
  ]

module _ {P F : Type 0} where
  abbrev pub EndsBy : ℕ → Spans P F → Type 0
  EndsBy n spans = All (λ s. s.end ≤ n) spans

  -- The rows of the table, from one block on.
  abbrev pub AreRows : Spans P F → ℕ → List (Spans P F) → Type 0
  AreRows spans b [] = Unit
  AreRows spans b (row ∷ rows) = (row ≡ keep (covers b) spans) × AreRows spans (b + 1) rows

  make_rows :
      (spans : Spans P F) (b : ℕ) (rows : List (Spans P F))
      → ((i : ℕ) → i < length rows → get_elem? rows i ≡ some (keep (covers (b + i)) spans))
      → AreRows spans b rows
  make_rows spans b [] h = tt
  make_rows spans b (row ∷ rows) h = (
    (let at = h 0 (omega arith) in
        let same : b + 0 ≡ b = omega arith in ground (arith, rw same at at)),
    make_rows spans (b + 1) rows (λ i inside.
        let same : b + suc i ≡ b + 1 + i = omega arith in rw same at (h (suc i) (omega arith))),
  )

  pub table-AreRows : (spans : Spans P F) (n : ℕ) → AreRows spans 0 (spans_containing_block spans n)
  table-AreRows spans n = make_rows spans 0 (spans_containing_block spans n) (λ i h.
      let same : 0 + i ≡ i = omega arith in
      rw same
        (get_elem?-spans_containing_block spans n i
          (omega (arith, h, length-spans_containing_block spans n))).1)

  abbrev pub IsHosted : Spans P F → ℕ → Key P → Type 0
  IsHosted spans n key = (key.1 < n) × Hosts spans key.0 key.1

  pub RowsHave-IsHosted :
      (spans : Spans P F) (same : Discrete P) (end : Key P) (n b : ℕ) (rows : List (Spans P F))
      → b + length rows ≡ n
      → AreRows spans b rows
      → RowsHave same end (IsHosted spans n) (IsHosted spans n) b rows
  RowsHave-IsHosted spans same end n b [] e h = tt
  RowsHave-IsHosted spans same end n b (row ∷ rows) e (is_row, h) = (
    rw is_row (
        All-keep (covers b) (λ s. IsHosted spans n (s.peer_id, b)) spans
          (with_lt spans spans (λ s k. k))),
    RowsHave-IsHosted spans same end n (b + 1) rows (omega (arith, e)) h,
  )
    where
      with_lt :
          (part all : Spans P F)
          → ((s : RemoteSpanInfo P F) → Hosts part s.peer_id b → Hosts all s.peer_id b)
          → Passing (covers b) (λ s. (b < n) × Hosts all s.peer_id b) part
      with_lt [] all up = tt
      with_lt (s ∷ part) all up =
          (λ k. (omega (arith, e), up s (inl (refl, k))), with_lt part all (λ t h'. up t (inr h')))

  pub found_at :
      (spans : Spans P F) (same : Discrete P) (end : Key P) (n : ℕ) (ns : Nodes P) (b i : ℕ)
      (rows : List (Spans P F))
      → i < length rows
      → AreRows spans b rows
      → RowsHave same end (IsHosted spans n) (Has same ns) b rows
      → Passing (covers (b + i)) (λ s. Has same ns (s.peer_id, b + i)) spans
  found_at spans same end n ns b i [] h are have = elim h [ ]
  found_at spans same end n ns b zero (row ∷ rows) h (is_row, are) (have, rest) =
      let at : b ≡ b + 0 = omega arith in
      subst (λ c. Passing (covers c) (λ s. Has same ns (s.peer_id, c)) spans) at
        (Passing-keep (covers b) (λ s. Has same ns (s.peer_id, b)) spans (rw is_row at have))
  found_at spans same end n ns b (suc i) (row ∷ rows) h (is_row, are) (have, rest) =
      let at : b + 1 + i ≡ b + suc i = omega arith in
      subst (λ c. Passing (covers c) (λ s. Has same ns (s.peer_id, c)) spans) at
        (found_at spans same end n ns (b + 1) i rows (omega arith) are rest)

module _ {P : Type 0} (f : F64) (same : Discrete P) (rtts : Latencies P f.F) (ns : Nodes P) (n : ℕ)
    (end : Key P) (H : Key P → Type 0) (num : IsNumbered same end H ns) (end_lem : end.1 ≡ n) where
  rows_taken :
      (b : ℕ) (spans : Spans P f.F)
      → EndsBy n spans
      → Passing (covers b) (λ s. Has same ns (s.peer_id, b)) spans
      → (b + 1 < n → Passing (covers (b + 1)) (λ s. Has same ns (s.peer_id, b + 1)) spans)
      → Passing (covers b) (IsReady f same rtts ns n end H num end_lem b) spans
  rows_taken b [] ends here next = tt
  rows_taken b (s ∷ spans) (by, ends) (has, here) next = (
    λ e. (has e, λ goes. (next (ground arith)).0 (ground arith)),
    rows_taken b spans ends here (λ h. (next h).1),
  )

  pub rows_prepared :
      (spans : Spans P f.F) (b : ℕ) (rows : List (Spans P f.F))
      → EndsBy n spans
      → ((c : ℕ) → c < n → Passing (covers c) (λ s. Has same ns (s.peer_id, c)) spans)
      → b + length rows ≡ n
      → AreRows spans b rows
      → RowsReady f same rtts ns n end H num end_lem b rows
  rows_prepared spans b [] ends has e are = tt
  rows_prepared spans b (row ∷ rows) ends has e (is_row, are) = (
    rw is_row (
        All-keep (covers b) (IsReady f same rtts ns n end H num end_lem b) spans
          (rows_taken b spans ends (has b (omega (arith, e))) (λ h. has (b + 1) h))),
    rows_prepared spans (b + 1) rows ends has (omega (arith, e)) are,
  )
