-- ===== src/P2p/Sequence/Priority/Grown.antt =====
-- The span that `compute_spans` makes of the blocks a peer is listed for
-- (src/p2p/src/sequence_manager.rs).
use inference_mesh.Base.{
  ℕ, suc, ◌+◌, ◌≤◌, ◌<◌, ◌≡◌, refl, sym, subst, ◌⊎◌, inl, inr, true, false, ltb, ◌==◌, Bool-cases,
  Option, none, some, List, [], ◌∷◌, All, All-map, get_elem?, All-get_elem?, length, ite,
  sort_by-All, arith,
}
use inference_mesh.Base.HashMap
use inference_mesh.Base.HashMap.{HashMap, IsKeyed, get-insert}
use inference_mesh.P2p.Types.{RemoteModuleInfo, RemoteSpanInfo, ServerInfo, ServerState, as_u8}
use inference_mesh.P2p.Sequence.Priority.{
  clip, first_offset, entry_or_insert, one_block, grow, update, add_listed, add_modules,
  compute_spans, sorted_servers,
}
use inference_mesh.P2p.Sequence.Priority.Listings.{
  state_of, see, block_listings, listings, block_listings-sort_by,
}

module _ {X : Type 0} (A B : X → Type 0) where
  both : (xs : List X) → All A xs → All B xs → All (λ x. A x × B x) xs
  both [] a b = tt
  both (x ∷ xs) (a, rest) (b, others) = ((a, b), both xs rest others)

module _ {P F : Type 0} where
  -- The listing is of a lower state than the span, or it is of the span's state and inside it.
  abbrev pub Fits : RemoteSpanInfo P F → ℕ × ServerInfo F → Type 0
  Fits span (i, info) =
      (state_of info < state_of span.server_info)
      ⊎ ((state_of info ≡ state_of span.server_info) × (span.start ≤ i) × (i < span.end))

  -- The span goes from the first listing of the highest state to the last one.
  pub record IsSpan (seen : List (ℕ × ServerInfo F)) (span : RemoteSpanInfo P F) : Type 0 where
    pub fits : All (Fits span) seen
    pub first : (k : ℕ) × (get_elem? seen k ≡ some (span.start, span.server_info))
    pub last :
        (k last : ℕ) × (info : ServerInfo F) × (get_elem? seen k ≡ some (last, info))
        × (span.end ≡ last + 1)
        × (state_of info ≡ state_of span.server_info)

  -- Where nothing was listed there is no span, and otherwise there is the one span.
  abbrev pub IsSpanOf : List (ℕ × ServerInfo F) → Option (RemoteSpanInfo P F) → Type 0
  IsSpanOf seen found =
      ((seen ≡ []) × (found ≡ none))
      ⊎ ((span : RemoteSpanInfo P F) × (found ≡ some span) × IsSpan seen span)

module _ {P F : Type 0} (seen : List (ℕ × ServerInfo F)) (i : ℕ) (info : ServerInfo F)
    (span : RemoteSpanInfo P F) (s : IsSpan seen span) (early : All (λ e. e.0 ≤ i) seen) where
  start_below : span.start ≤ i
  start_below = let (k, found) = s.first in All-get_elem? (λ e. e.0 ≤ i) seen k early found

  grow-higher :
      state_of span.server_info < state_of info
      → IsSpan ((i, info) ∷ seen) (record span { start = i; end = i + 1; server_info = info })
  grow-higher higher = record {
    fits = (inr (refl, omega arith, omega arith), All-map seen (λ e old. inl (lower e old)) s.fits);
    first = (0, refl);
    last = (0, i, info, refl, refl, refl);
  }
    where
      lower : (e : ℕ × ServerInfo F) → Fits span e → state_of e.1 < state_of info
      lower e (inl below) = omega arith
      lower e (inr (same_state, from, to)) = omega arith

  grow-equal :
      state_of span.server_info ≡ state_of info
      → IsSpan ((i, info) ∷ seen) (record span { end = i + 1 })
  grow-equal equal = record {
    fits = (
      inr (sym equal, start_below, omega arith),
      All-map seen (λ e old. still e old.0 old.1)
          (both (Fits span) (λ e. e.0 ≤ i) seen s.fits early),
    );
    first = (suc s.first.0, s.first.1);
    last = (0, i, info, refl, refl, sym equal);
  }
    where
      still : (e : ℕ × ServerInfo F) → Fits span e → e.0 ≤ i → Fits (record span { end = i + 1 }) e
      still e (inl below) low = inl below
      still e (inr (same_state, from, to)) low = inr (same_state, from, omega arith)

  grow-lower : state_of info < state_of span.server_info → IsSpan ((i, info) ∷ seen) span
  grow-lower low =
      let (k, last, other, found, ends, equal) = s.last in
      record {
        fits = (inl low, s.fits);
        first = (suc s.first.0, s.first.1);
        last = (suc k, last, other, found, ends, equal);
      }

  grow-IsSpan : IsSpan ((i, info) ∷ seen) (grow info i span)
  grow-IsSpan = elim (Bool-cases (ltb (state_of span.server_info) (state_of info))) [
    | inl higher ↦ rw higher (grow-higher (ground arith))
    | inr lower ↦ elim (Bool-cases (state_of span.server_info == state_of info)) [
      | inl equal ↦ rw (lower, equal) (grow-equal (ground arith))
      | inr differs ↦ rw (lower, differs) (grow-lower (ground arith))
    ]
  ]

module _ {P F : Type 0} where
  -- A server without an announced start leaves the span alone.
  clip-none :
      (offset num_blocks : ℕ) (sb eb : Option ℕ) (entry : RemoteSpanInfo P F)
      → sb ≡ none
      → clip offset num_blocks sb eb entry ≡ entry
  clip-none offset num_blocks none eb entry e = refl
  clip-none offset num_blocks (some b) eb entry e = cc

module _ {P F : Type 0} (p : P) (i : ℕ) (info : ServerInfo F) where
  one_block-IsSpan :
      (seen : List (ℕ × ServerInfo F))
      → seen ≡ []
      → IsSpan {P = P} {F = F} ((i, info) ∷ seen) (grow info i (one_block p info i))
  one_block-IsSpan seen nothing =
      let here : IsSpan {P = P} {F = F} ((i, info) ∷ []) (one_block p info i) = record {
        fits = (inr (refl, omega arith, omega arith), tt);
        first = (0, refl);
        last = (0, i, info, refl, refl, refl);
      } in
      let same_state : ltb (as_u8 info.state) (as_u8 info.state) ≡ false = ground arith in
      let equal : (as_u8 info.state == as_u8 info.state) ≡ true = ground arith in
      rw (nothing, same_state, equal) here

module _ {P F : Type 0} (same : Discrete P) (min_state : ServerState) (p : P)
    (ms : List (RemoteModuleInfo P F)) where
  update-IsSpanOf :
      (i : ℕ) (info : ServerInfo F) (seen : List (ℕ × ServerInfo F))
      (found : Option (RemoteSpanInfo P F))
      → info.start_block ≡ none
      → All (λ e. e.0 ≤ i) seen
      → IsSpanOf seen found
      → IsSpanOf ((i, info) ∷ seen) (some (update same ms p info i found))
  update-IsSpanOf i info seen found silent early before =
      subst (λ x. IsSpanOf ((i, info) ∷ seen) (some x))
        (sym (clip-none (first_offset ms) (length ms) info.start_block info.end_block _ silent))
        (grown before)
    where
      grown :
          IsSpanOf seen found
          → IsSpanOf ((i, info) ∷ seen) (some (grow info i (entry_or_insert p info i found)))
      grown (inl (nothing, no_span)) =
          rw no_span (inr (_, refl, one_block-IsSpan p i info seen nothing))
      grown (inr (span, old, s)) = rw old (inr (_, refl, grow-IsSpan seen i info span s early))

  -- One server of a block, by whether it is the peer.
  add_server-IsSpanOf :
      (i : ℕ) (q : P) (info : ServerInfo F) (seen : List (ℕ × ServerInfo F))
      (spans : HashMap P (RemoteSpanInfo P F)) (is_peer : Dec (q ≡ p))
      → info.start_block ≡ none
      → All (λ e. e.0 ≤ i) seen
      → IsSpanOf seen (HashMap.get same p spans)
      → All (λ e. e.0 ≤ i) (ite is_peer ((i, info) ∷ seen) seen)
        × IsSpanOf (ite is_peer ((i, info) ∷ seen) seen) (
            ite is_peer
              (some (update same ms q info i (HashMap.get same q spans)))
              (HashMap.get same p spans))
  add_server-IsSpanOf i q info seen spans (yes here) silent early is = (
    (omega arith, early),
    subst
        (λ r.
          IsSpanOf ((i, info) ∷ seen) (some (update same ms r info i (HashMap.get same r spans))))
        (sym here) (update-IsSpanOf i info seen (HashMap.get same p spans) silent early is),
  )
  add_server-IsSpanOf i q info seen spans (no there) silent early is = (early, is)

  skip :
      (i : ℕ) (info : ServerInfo F) (seen : List (ℕ × ServerInfo F)) {q : P} (is_peer : Dec (q ≡ p))
      → ltb (as_u8 info.state) (as_u8 min_state) ≡ true
      → ite is_peer (see same min_state p i info seen) seen ≡ seen
  skip i info seen (yes here) below = rw below refl
  skip i info seen (no there) below = refl

  add_listed-IsSpanOf :
      (i : ℕ) (servers : List (P × ServerInfo F)) (seen : List (ℕ × ServerInfo F))
      (spans : HashMap P (RemoteSpanInfo P F))
      → All (λ e. e.1.start_block ≡ none) servers
      → All (λ e. e.0 ≤ i) seen
      → IsSpanOf seen (HashMap.get same p spans)
      → All (λ e. e.0 ≤ i) (block_listings same min_state p i servers seen)
        × IsSpanOf
            (block_listings same min_state p i servers seen)
            (HashMap.get same p (add_listed same ms min_state i servers spans))
  unfolding add_listed
  add_listed-IsSpanOf i [] seen spans silent early is = (early, is)
  add_listed-IsSpanOf i ((q, info) ∷ servers) seen spans (quiet, silent) early is =
      elim (Bool-cases (ltb (as_u8 info.state) (as_u8 min_state))) [
        | inl below ↦
            rw (skip i info seen (same q p) below, below)
              (add_listed-IsSpanOf i servers seen spans silent early is)
        | inr ready ↦
            let (early', is') = add_server-IsSpanOf i q info seen spans (same q p) quiet early is in
            let entry = update same ms q info i (HashMap.get same q spans) in
            rw ready (
              add_listed-IsSpanOf i servers (ite (same q p) ((i, info) ∷ seen) seen)
                (HashMap.insert same q entry spans) silent early'
                (rw (get-insert same q p entry spans) is'))
      ]

  add_modules-IsSpanOf :
      (i : ℕ) (rest : List (RemoteModuleInfo P F)) (seen : List (ℕ × ServerInfo F))
      (spans : HashMap P (RemoteSpanInfo P F))
      → All (λ m. IsKeyed same m.servers) rest
      → All (λ m. All (λ e. e.1.start_block ≡ none) m.servers) rest
      → All (λ e. e.0 ≤ i) seen
      → IsSpanOf seen (HashMap.get same p spans)
      → IsSpanOf
          (listings same min_state p i rest seen)
          (HashMap.get same p (add_modules same ms min_state i rest spans))
  unfolding add_modules
  add_modules-IsSpanOf i [] seen spans keyed silent early is = is
  add_modules-IsSpanOf i (m ∷ rest) seen spans (once, keyed) (quiet, silent) early is =
      let (early', is') =
        add_listed-IsSpanOf i (sorted_servers m.servers) seen spans
          (sort_by-All _ (λ e. e.1.start_block ≡ none) m.servers quiet) early is in
      let order =
        block_listings-sort_by same min_state p i (λ a b. ltb (as_u8 a.1.state) (as_u8 b.1.state))
          m.servers seen once in
      add_modules-IsSpanOf (i + 1) rest (block_listings same min_state p i m.servers seen) _ keyed
        silent (All-map _ (λ e low. omega (arith, low)) (rw order at early')) (rw order at is')

-- Where no block lists a peer twice and no server announces a start block: a peer that no block lists
-- in at least the given state has no span, and any other has the one from the first block that lists
-- it in the highest of its states to the last that does, with what the first of them lists.
pub compute_spans_lem :
    {P F : Type 0} (same : Discrete P) (ms : List (RemoteModuleInfo P F)) (min_state : ServerState)
    (p : P)
    → All (λ m. IsKeyed same m.servers) ms
    → All (λ m. All (λ e. e.1.start_block ≡ none) m.servers) ms
    → IsSpanOf
        (listings same min_state p 0 ms [])
        (HashMap.get same p (compute_spans same ms min_state))
unfolding compute_spans HashMap.get
compute_spans_lem same ms min_state p keyed silent =
    add_modules-IsSpanOf same min_state p ms 0 ms [] [] keyed silent tt (inl (refl, refl))
