-- ===== src/P2p/Sequence/Latency/Route.antt =====
-- The spans that are collected from a path (src/p2p/src/sequence_manager.rs).
use inference_mesh.Base.{
  ℕ, zero, suc, ◌+◌, ◌-◌, ◌<◌, ◌≡◌, refl, sym, subst, ◌⊎◌, inl, inr, true, Bool-cases, List, [],
  ◌∷◌, ◌++◌, length, get_elem?_in, All, ok, arith,
}
use inference_mesh.P2p.Types
use inference_mesh.P2p.Types.{RemoteSpanInfo}
use inference_mesh.P2p.Dht.{range}
use inference_mesh.P2p.Sequence.{Spans}
use inference_mesh.P2p.Sequence.Containing.{covers}
use inference_mesh.P2p.Sequence.Latency.{last_is, extend_last, find_info, add_block, retain}

All-range : (Q : ℕ → Type 0) (s k : ℕ) → All Q (range s k) → Q (s + k) → All Q (range s (suc k))
unfolding range
All-range Q s zero h q = (subst Q (omega arith) q, tt)
All-range Q s (suc k) (q0, h) q = (q0, All-range Q (s + 1) k h (subst Q (omega arith) q))

module _ {P F : Type 0} where
  -- A span of the list is the peer's and holds the block.
  abbrev pub Hosts : Spans P F → P → ℕ → Type 0
  Hosts [] p b = ⊥
  Hosts (s ∷ spans) p b = ((s.peer_id ≡ p) × (covers b s ≡ true)) ⊎ Hosts spans p b

  -- Every block of the piece is held by its peer.
  abbrev pub Serves : Spans P F → RemoteSpanInfo P F → Type 0
  Serves spans x = All (λ b. Hosts spans x.peer_id b) (range x.start (x.end - x.start))

  -- The pieces are not empty, follow one another from `from` to `to`, and are served by their peers.
  abbrev pub Route : Spans P F → ℕ → ℕ → Spans P F → Type 0
  Route spans from to [] = from ≡ to
  Route spans from to (x ∷ xs) =
      (x.start ≡ from) × (from < x.end) × Serves spans x × Route spans x.end to xs

  Route-append :
      (spans : Spans P F) (from b : ℕ) (xs : Spans P F) (x : RemoteSpanInfo P F)
      → Route spans from b xs
      → x.start ≡ b
      → x.end ≡ b + 1
      → Hosts spans x.peer_id b
      → Route spans from (b + 1) (xs ++ (x ∷ []))
  unfolding range
  Route-append spans from b [] x r s e h =
      let one : x.end - x.start ≡ 1 = omega (arith, s, e) in
      (omega (arith, s, r), omega (arith, e, r), rw one (rw s (h, tt)), e)
  Route-append spans from b (y ∷ xs) x (s', lt, serves, r) s e h =
      (s', lt, serves, Route-append spans y.end b xs x r s e h)

  Route-extend_last :
      (same : Discrete P) (spans : Spans P F) (from b : ℕ) (xs : Spans P F) (p : P)
      → Route spans from b xs
      → last_is same xs p ≡ true
      → Hosts spans p b
      → Route spans from (b + 1) (extend_last same xs (b + 1))
  unfolding last_is extend_last
  Route-extend_last same spans from b [] p r l h = cc
  Route-extend_last same spans from b (x ∷ []) p (s, lt, serves, e) l h =
      let is_p : x.peer_id ≡ p = ground arith in
      let longer : b + 1 - x.start ≡ suc (x.end - x.start) = omega (arith, s, lt, e) in
      let at_b : b ≡ x.start + (x.end - x.start) = omega (arith, s, lt, e) in
      (
        s,
        omega (arith, lt, e),
        rw longer (
            All-range (λ c. Hosts spans x.peer_id c) x.start (x.end - x.start) serves
              (subst (λ c. Hosts spans x.peer_id c) at_b
                (subst (λ q. Hosts spans q b) (sym is_p) h))),
        refl,
      )
  Route-extend_last same spans from b (x ∷ y ∷ xs) p (s, lt, serves, r) l h =
      (s, lt, serves, Route-extend_last same spans x.end b (y ∷ xs) p r l h)

  pub add_block-Route :
      (same : Discrete P) (zero_f : F) (spans : Spans P F) (containing : List (Spans P F))
      (from b : ℕ) (p : P) (xs : Spans P F)
      → b < length containing
      → Hosts spans p b
      → Route spans from b xs
      → (ys : Spans P F) × (add_block same zero_f containing (p, b) xs ≡ ok ys)
        × Route spans from (b + 1) ys
  unfolding add_block
  add_block-Route same zero_f spans containing from b p xs inside h r =
      elim (Bool-cases (last_is same xs p)) [
        | inl again ↦ (
          extend_last same xs (b + 1),
          rw again refl,
          Route-extend_last same spans from b xs p r again h,
        )
        | inr other ↦
            let (row, got) = get_elem?_in containing b inside in
            let x : RemoteSpanInfo P F = record {
              peer_id = p;
              start = b;
              end = b + 1;
              server_info = find_info same zero_f row p;
            } in
            (xs ++ (x ∷ []), rw (other, got) refl, Route-append spans from b xs x r refl refl h)
      ]

  -- No piece is empty, so `retain` keeps all.
  pub retain-Route :
      (same : Discrete P) (spans : Spans P F) (from to : ℕ) (xs : Spans P F)
      → Route spans from to xs
      → retain same xs ≡ xs
  unfolding Types.length
  retain-Route same spans from to [] r = refl
  retain-Route same spans from to (x ∷ xs) (s, lt, serves, r) =
      ground (arith, retain-Route same spans x.end to xs r)
