-- ===== src/P2p/Routing/Relay.antt =====
-- What becomes of a request on its way along the route (src/p2p/src/routing.rs).
use inference_mesh.Base.{
  ℕ, zero, suc, ◌+◌, ◌-◌, ◌<◌, ◌≤◌, ◌≡◌, refl, ap, ◌∙◌, true, false, Option, some, List, [], ◌∷◌,
  length, drop, drop_all, drop_of_get_elem?, get_elem?, get_elem?_in, get_elem?_out, ok, panic,
  u32_mod, arith,
}
use native.Mathlib.Nat.{mod-eq_of_lt}
use native.Mathlib.Numerals.{add-one}
use inference_mesh.Protocol.Schema.{Wire, IsFaithful}
use inference_mesh.Protocol.Request.{ForwardPassRequest, Payload, is_terminal}
use inference_mesh.Protocol.Request.RoundTrip.{Carries, IsSendable, build-Carries, is_terminal_lem}
use inference_mesh.P2p.Routing.{build_next_request}

module _ {P : Type 0} (w : Wire P) where
  -- The workers that a request is sent on to, up to the one that holds it as the terminal hop.
  pub data Relay : ForwardPassRequest → List P → ForwardPassRequest → Type 0 where
    arrive : {r : ForwardPassRequest} → is_terminal w r ≡ ok true → Relay r [] r
    forward :
        {r next last : ForwardPassRequest} {p : P} {ps : List P}
        → is_terminal w r ≡ ok false
        → build_next_request w r ≡ ok (p, next)
        → Relay next ps last
        → Relay r (p ∷ ps) last

module _ {P : Type 0} (w : Wire P) {peers : List P} {rid : ℕ} {t : Payload}
    {m : Option Payload} where
  -- Before the end of the route the worker turns a request into one for the next peer: the same
  -- route, id, tensor and mask, one hop further.
  pub build_next_request-Carries :
      IsFaithful w
      → (hop : ℕ) (r : ForwardPassRequest) → Carries w r peers hop rid t m
      → IsSendable w peers (hop + 1) rid t m
      → hop + 1 < length peers
      → (p : P) × (next : ForwardPassRequest) × (build_next_request w r ≡ ok (p, next))
        × (get_elem? peers (hop + 1) ≡ some p)
        × Carries w next peers (hop + 1) rid t m
  unfolding build_next_request
  build_next_request-Carries f hop r c s h =
      let (p, found) = get_elem?_in peers (hop + 1) h in
      let (next, built, carries) = build-Carries w f peers (hop + 1) rid t m s in
      let small : (hop + 1) < u32_mod = omega (arith, s.small_route) in
      (
        p,
        next,
        rw
            (
              c.has_route,
              c.has_hop,
              mod-eq_of_lt small,
              found,
              c.has_mask,
              c.has_id,
              c.has_dtype,
              c.has_shape,
              c.has_data,
              built,
            )
            refl,
        found,
        carries,
      )

  -- A request whose hop is past the end of its route is not terminal, and the worker that receives
  -- it panics, on the unchecked index into the route.
  pub build_next_request_past_end :
      (hop : ℕ) (r : ForwardPassRequest)
      → Carries w r peers hop rid t m
      → length peers ≤ hop
      → 0 < hop
      → hop + 1 < u32_mod
      → (is_terminal w r ≡ ok false) × (build_next_request w r ≡ panic)
  unfolding build_next_request
  build_next_request_past_end hop r c past pos small = (
    is_terminal_lem w r c ∙ ap ok (ground arith),
    rw (c.has_route, c.has_hop, mod-eq_of_lt small, get_elem?_out peers (hop + 1) (omega arith))
        refl,
  )

  Relay-from :
      IsFaithful w
      → ((hop : ℕ) → hop < length peers → IsSendable w peers hop rid t m)
      → (left hop : ℕ) (r : ForwardPassRequest) → Carries w r peers hop rid t m
      → hop + suc left ≡ length peers
      → (last : ForwardPassRequest) × Relay w r (drop (suc hop) peers) last
        × Carries w last peers (length peers - 1) rid t m
  Relay-from f s zero hop r c e =
      let there : hop ≡ length peers - 1 = omega arith in
      (
        r,
        rw (drop_all peers (suc hop) (omega arith))
            (arrive (is_terminal_lem w r c ∙ ap ok (ground arith))),
        rw there at c,
      )
  Relay-from f s (suc left) hop r c e =
      let (p, next, built, found, c') =
        build_next_request-Carries f hop r c (s (hop + 1) (omega arith)) (omega arith) in
      let (last, rest, arrived) = Relay-from f s left (hop + 1) next c' (omega arith) in
      (
        last,
        rw (drop_of_get_elem? peers (suc hop) (rw add-one at found))
            (forward (is_terminal_lem w r c ∙ ap ok (ground arith)) built (rw add-one at rest)),
        arrived,
      )

  -- With faithful libraries, and sizes within the limits at every hop, a request that starts at the
  -- first peer of a route is sent on to each later peer, in order, and arrives at the last one with
  -- the id, the tensor and the mask that the client sent: no worker on the way changes the tensor.
  pub Relay-route :
      IsFaithful w
      → ((hop : ℕ) → hop < length peers → IsSendable w peers hop rid t m)
      → (r : ForwardPassRequest) → Carries w r peers 0 rid t m
      → 0 < length peers
      → (last : ForwardPassRequest) × Relay w r (drop 1 peers) last
        × Carries w last peers (length peers - 1) rid t m
  Relay-route f s r c h = Relay-from f s (length peers - 1) 0 r c (omega arith)
