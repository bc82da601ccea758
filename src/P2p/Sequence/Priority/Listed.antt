-- ===== src/P2p/Sequence/Priority/Listed.antt =====
-- Where the spans of `compute_spans` come from (src/p2p/src/sequence_manager.rs).
use inference_mesh.Base.{
  ℕ, suc, ◌+◌, ◌≤◌, ◌<◌, ◌≡◌, refl, subst, inl, inr, ltb, ◌==◌, Bool-cases, Option, none, some,
  List, [], ◌∷◌, All, All-map, get_elem?, get_elem?_of_drop, drop_next, get_elem?_below, drop,
  sort_by-All, length, if_pos, if_neg, arith,
}
use inference_mesh.Base.HashMap
use inference_mesh.Base.HashMap.{HashMap}
use inference_mesh.P2p.Types.{RemoteModuleInfo, RemoteSpanInfo, ServerInfo, ServerState, as_u8}
use inference_mesh.P2p.Sequence.Priority.{
  clip, grow, entry_or_insert, first_offset, add_listed, add_modules, compute_spans, sorted_servers,
}

module _ {P F : Type 0} where
  -- The server stands among those of some block.
  abbrev pub IsListed : List (RemoteModuleInfo P F) → P → ServerInfo F → Type 0
  IsListed module_infos p info =
      (i : ℕ) × (m : RemoteModuleInfo P F) × (get_elem? module_infos i ≡ some m)
      × (j : ℕ) × (get_elem? m.servers j ≡ some (p, info))

  -- A span under its peer: of a server that is listed and in the state that was asked for, and
  -- within the blocks.
  pub record IsSound (module_infos : List (RemoteModuleInfo P F)) (min_state : ServerState) (p : P)
      (span : RemoteSpanInfo P F) : Type 0 where
    pub peer : span.peer_id ≡ p
    pub inside : span.end ≤ length module_infos
    pub ready : as_u8 min_state ≤ as_u8 span.server_info.state
    pub listed : IsListed module_infos p span.server_info

  abbrev pub AreSound :
      List (RemoteModuleInfo P F) → ServerState → HashMap P (RemoteSpanInfo P F) → Type 0
  AreSound ms min_state spans = All (λ e. IsSound ms min_state e.0 e.1) spans

module _ {ℓ} {A : Type ℓ} where
  -- Every element of a list stands at some place of it.
  each_placed : (xs : List A) → All (λ x. (j : ℕ) × (get_elem? xs j ≡ some x)) xs
  each_placed [] = tt
  each_placed (x ∷ xs) = ((0, refl), All-map xs (λ y e. (suc e.0, e.1)) (each_placed xs))

module _ {P F : Type 0} (same : Discrete P) where
  module _ (Q : P → RemoteSpanInfo P F → Type 0) where
    All-get :
        (spans : HashMap P (RemoteSpanInfo P F)) (p : P) {span : RemoteSpanInfo P F}
        → All (λ e. Q e.0 e.1) spans
        → HashMap.get same p spans ≡ some span
        → Q p span
    unfolding HashMap.get
    All-get [] p h e = cc
    All-get ((q, s) ∷ spans) p {span = span} (good, h) e = elim (same q p) [
      | yes here ↦ subst (λ r. Q r span) here (subst (Q q) (ground arith) good)
      | no there ↦ All-get spans p h (ground arith)
    ]

    All-insert :
        (spans : HashMap P (RemoteSpanInfo P F)) (p : P) (span : RemoteSpanInfo P F)
        → Q p span
        → All (λ e. Q e.0 e.1) spans
        → All (λ e. Q e.0 e.1) (HashMap.insert same p span spans)
    unfolding HashMap.insert
    All-insert [] p span good h = (good, tt)
    All-insert ((q, s) ∷ spans) p span good (old, h) = elim (same q p) [
      | yes here ↦ rw (if_pos (same q p) here) (good, h)
      | no there ↦ rw (if_neg (same q p) there) (old, All-insert spans p span good h)
    ]

  module _ (ms : List (RemoteModuleInfo P F)) (min_state : ServerState) where
    entry_or_insert-IsSound :
        (p : P) (info : ServerInfo F) (i : ℕ) (found : Option (RemoteSpanInfo P F))
        → i < length ms
        → as_u8 min_state ≤ as_u8 info.state
        → IsListed ms p info
        → ((span : RemoteSpanInfo P F) → found ≡ some span → IsSound ms min_state p span)
        → IsSound ms min_state p (entry_or_insert p info i found)
    entry_or_insert-IsSound p info i none low ready listed old = record {
      peer = refl;
      inside = omega (arith, low);
      ready = ready;
      listed = listed;
    }
    entry_or_insert-IsSound p info i (some span) low ready listed old = old span refl

    grow-IsSound :
        (p : P) (info : ServerInfo F) (i : ℕ) (entry : RemoteSpanInfo P F)
        → i < length ms
        → as_u8 min_state ≤ as_u8 info.state
        → IsListed ms p info
        → IsSound ms min_state p entry
        → IsSound ms min_state p (grow info i entry)
    grow-IsSound p info i entry low ready listed sound =
        elim (Bool-cases (ltb (as_u8 entry.server_info.state) (as_u8 info.state))) [
          | inl higher ↦ rw higher (record {
            peer = sound.peer;
            inside = omega (arith, low);
            ready = ready;
            listed = listed;
          })
          | inr lower ↦ elim (Bool-cases (as_u8 entry.server_info.state == as_u8 info.state)) [
            | inl equal ↦
                rw (lower, equal)
                  (record {
                    peer = sound.peer;
                    inside = omega (arith, low);
                    ready = sound.ready;
                    listed = sound.listed;
                  })
            | inr differs ↦ rw (lower, differs) sound
          ]
        ]

    clip-IsSound :
        (p : P) (offset : ℕ) (sb eb : Option ℕ) (entry : RemoteSpanInfo P F)
        → IsSound ms min_state p entry
        → IsSound ms min_state p (clip offset (length ms) sb eb entry)
    clip-IsSound p offset none eb entry sound = sound
    clip-IsSound p offset (some a) none entry sound = sound
    clip-IsSound p offset (some a) (some b) entry sound = record {
      peer = sound.peer;
      inside = omega (arith, sound.inside);
      ready = sound.ready;
      listed = sound.listed;
    }

    add_listed-AreSound :
        (i : ℕ) (servers : List (P × ServerInfo F)) (spans : HashMap P (RemoteSpanInfo P F))
        → i < length ms
        → All (λ e. IsListed ms e.0 e.1) servers
        → AreSound ms min_state spans
        → AreSound ms min_state (add_listed same ms min_state i servers spans)
    unfolding add_listed
    add_listed-AreSound i [] spans low listed sound = sound
    add_listed-AreSound i ((p, info) ∷ servers) spans low (here, listed) sound =
        add_listed-AreSound i servers _ low listed
          (elim (Bool-cases (ltb (as_u8 info.state) (as_u8 min_state))) [
            | inl before ↦ rw before sound
            | inr ready ↦
                let ready_le : as_u8 min_state ≤ as_u8 info.state = ground arith in
                rw ready (
                  All-insert (IsSound ms min_state) spans p _
                    (clip-IsSound p (first_offset ms) info.start_block info.end_block _ (
                      grow-IsSound p info i _ low ready_le here (
                        entry_or_insert-IsSound p info i (HashMap.get same p spans) low ready_le
                          here (λ span e. All-get (IsSound ms min_state) spans p sound e))))
                    sound)
          ])

    add_modules-AreSound :
        (i : ℕ) (rest : List (RemoteModuleInfo P F)) (spans : HashMap P (RemoteSpanInfo P F))
        → drop i ms ≡ rest
        → AreSound ms min_state spans
        → AreSound ms min_state (add_modules same ms min_state i rest spans)
    unfolding add_modules
    add_modules-AreSound i [] spans at sound = sound
    add_modules-AreSound i (m ∷ rest) spans at sound =
        let got : get_elem? ms i ≡ some m = get_elem?_of_drop ms i at in
        add_modules-AreSound (i + 1) rest _ (drop_next ms i at) (
          add_listed-AreSound i (sorted_servers m.servers) spans (get_elem?_below ms i got)
            (sort_by-All _ (λ e. IsListed ms e.0 e.1) m.servers
              (All-map m.servers (λ e at_j. (i, m, got, at_j.0, at_j.1)) (each_placed m.servers)))
            sound)

    -- Each entry of compute_spans stands under its span's peer, does not end behind the last
    -- block, and its server is one that some block lists, in a state that is not below min_state.
    pub compute_spans-AreSound : AreSound ms min_state (compute_spans same ms min_state)
    unfolding compute_spans
    compute_spans-AreSound = add_modules-AreSound 0 ms [] refl tt
