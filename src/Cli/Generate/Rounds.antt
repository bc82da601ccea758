-- ===== src/Cli/Generate/Rounds.antt =====
-- What the loop of `generate` (src/cli/src/main.rs) sends and keeps.
use inference_mesh.Base.{
  ℕ, zero, suc, ◌+◌, ◌≤◌, ◌≡◌, refl, sym, ap, ◌∙◌, subst, List, [], ◌∷◌, ◌++◌, map, append_assoc,
  append-nil, length, length-append, Result, ok, err, panic, ◌>>=◌, >>=-eq-ok, arith,
}
use inference_mesh.Protocol.Schema.{Bytes}
use inference_mesh.P2p.Worker.{output_bytes}
use inference_mesh.Compute.Candle.{Candle}
use inference_mesh.Cli.Generate.{
  Reply, send_failed, closed, failed, answered, Progress, Next, goes, stops, Weights, shape_of,
  payload_of, next_token, print_token, take_token, on_reply, send_payload, sends, round,
  first_reply, other_replies, generate,
}

abbrev pub shapes : List (Bytes × List ℕ) → List (List ℕ)
shapes sent = map (λ s. s.1) sent

shapes-append : (xs ys : List (Bytes × List ℕ)) → shapes (xs ++ ys) ≡ shapes xs ++ shapes ys
shapes-append [] ys = refl
shapes-append (x ∷ xs) ys = ap (λ s. x.1 ∷ s) (shapes-append xs ys)

module _ (candle : Candle) (weights : Weights candle) where
  -- The shapes of payloads, the first of `seq_len` tokens and each of one more than the one before.
  abbrev pub shapes_from : ℕ → ℕ → List (List ℕ)
  shapes_from seq_len zero = []
  shapes_from seq_len (suc count) =
      shape_of candle weights seq_len ∷ shapes_from (suc seq_len) count

  -- From p to q the tokens `new` came, and `count` payloads were sent, which is one for each new
  -- token and at most one more.
  pub record Grows (p q : Progress) (new : List ℕ) (count : ℕ) : Type 0 where
    pub grown : q.tokens ≡ p.tokens ++ new
    pub sent : shapes q.sent ≡ shapes p.sent ++ shapes_from (length p.tokens) count
    pub enough : length new ≤ count
    pub few : count ≤ length new + 1

  Stepped : Progress → Progress × Next → Type 0
  Stepped p after =
      (new : List ℕ) × (count : ℕ) × Grows p after.0 new count
      × (count ≤ 1)
      × (after.1 ≡ goes → (length new ≡ 1) × (count ≡ 1))

  nothing_sent : (p : Progress) → Grows p p [] 0
  nothing_sent p = record {
    grown = sym (append-nil p.tokens);
    sent = sym (append-nil (shapes p.sent));
    enough = omega arith;
    few = omega arith;
  }

  one_sent :
      (p q : Progress) (payload : Bytes × List ℕ) (new : List ℕ)
      → payload.1 ≡ shape_of candle weights (length p.tokens)
      → q.tokens ≡ p.tokens ++ new
      → q.sent ≡ p.sent ++ (payload ∷ [])
      → length new ≤ 1
      → Grows p q new 1
  one_sent p q payload new shape grown sent small = record {
    grown = grown;
    sent =
        ap shapes sent
        ∙ (shapes-append p.sent (payload ∷ []) ∙ ap (λ s. shapes p.sent ++ (s ∷ [])) shape);
    enough = small;
    few = omega arith;
  }

  print_token-Stepped :
      (p : Progress) (payload : Bytes × List ℕ) (token : ℕ) (text : Result Bytes)
      → payload.1 ≡ shape_of candle weights (length p.tokens)
      → Stepped p (print_token candle weights (sends candle weights p payload) token text)
  unfolding Stepped
  print_token-Stepped p payload token (ok text) shape = (
    token ∷ [],
    1,
    one_sent p _ payload (token ∷ []) shape refl refl (omega arith),
    omega arith,
    λ e. (refl, refl),
  )
  print_token-Stepped p payload token (err why) shape = (
    token ∷ [],
    1,
    one_sent p _ payload (token ∷ []) shape refl refl (omega arith),
    omega arith,
    λ e. (refl, refl),
  )
  print_token-Stepped p payload token panic shape = (
    token ∷ [],
    1,
    one_sent p _ payload (token ∷ []) shape refl refl (omega arith),
    omega arith,
    λ e. (refl, refl),
  )

  take_token-Stepped :
      (p : Progress) (payload : Bytes × List ℕ) (token : Result ℕ)
      → payload.1 ≡ shape_of candle weights (length p.tokens)
      → Stepped p (take_token candle weights (sends candle weights p payload) token)
  unfolding Stepped
  take_token-Stepped p payload (ok token) shape =
      print_token-Stepped p payload token (weights.decode token) shape
  take_token-Stepped p payload (err why) shape = (
    [],
    1,
    one_sent p _ payload [] shape (sym (append-nil p.tokens)) refl (omega arith),
    omega arith,
    λ e. cc e,
  )
  take_token-Stepped p payload panic shape = (
    [],
    1,
    one_sent p _ payload [] shape (sym (append-nil p.tokens)) refl (omega arith),
    omega arith,
    λ e. cc e,
  )

  on_reply-Stepped :
      (p : Progress) (payload : Bytes × List ℕ) (reply : Reply)
      → payload.1 ≡ shape_of candle weights (length p.tokens)
      → Stepped p (on_reply candle weights p payload reply)
  unfolding Stepped
  on_reply-Stepped p payload send_failed shape = ([], 0, nothing_sent p, omega arith, λ e. cc e)
  on_reply-Stepped p payload closed shape = (
    [],
    1,
    one_sent p _ payload [] shape (sym (append-nil p.tokens)) refl (omega arith),
    omega arith,
    λ e. cc e,
  )
  on_reply-Stepped p payload (failed why) shape = (
    [],
    1,
    one_sent p _ payload [] shape (sym (append-nil p.tokens)) refl (omega arith),
    omega arith,
    λ e. cc e,
  )
  on_reply-Stepped p payload (answered response) shape =
      take_token-Stepped p payload (next_token candle weights response (length p.tokens)) shape

  send_payload-Stepped :
      (p : Progress) (reply : Reply) (payload : Result (Bytes × List ℕ))
      → ((sent : Bytes × List ℕ)
          → payload ≡ ok sent
          → sent.1 ≡ shape_of candle weights (length p.tokens))
      → Stepped p (send_payload candle weights p reply payload)
  unfolding Stepped
  send_payload-Stepped p reply (ok payload) shape =
      on_reply-Stepped p payload reply (shape payload refl)
  send_payload-Stepped p reply (err why) shape = ([], 0, nothing_sent p, omega arith, λ e. cc e)
  send_payload-Stepped p reply panic shape = ([], 0, nothing_sent p, omega arith, λ e. cc e)

  ok_shape :
      (floats : Result (List ℕ)) (make : List ℕ → Bytes) (shape : List ℕ) (payload : Bytes × List ℕ)
      → (floats >>= λ fs. ok (make fs, shape)) ≡ ok payload
      → payload.1 ≡ shape
  ok_shape floats make shape payload e = let (fs, got, same) = >>=-eq-ok floats _ e in cc same

  payload_of_shape :
      (tokens : List ℕ) (payload : Bytes × List ℕ)
      → payload_of candle weights tokens ≡ ok payload
      → payload.1 ≡ shape_of candle weights (length tokens)
  unfolding payload_of
  payload_of_shape tokens payload e =
      let (a, got_a, e1) = >>=-eq-ok (candle.from_tokens tokens) _ e in
      let (b, got_b, e2) = >>=-eq-ok (candle.unsqueeze 0 a) _ e1 in
      let (c, got_c, e3) = >>=-eq-ok (candle.embedding weights.embed_tokens b) _ e2 in
      let (d, got_d, e4) = >>=-eq-ok (candle.flatten_all c) _ e3 in
      ok_shape (candle.to_vec1 d) output_bytes (shape_of candle weights (length tokens)) payload e4

  round-Stepped : (p : Progress) (reply : Reply) → Stepped p (round candle weights p reply)
  unfolding round
  round-Stepped p reply =
      send_payload-Stepped p reply (payload_of candle weights p.tokens) (payload_of_shape p.tokens)

  Grows-then :
      (p q r : Progress) (new more : List ℕ) (count : ℕ)
      → Grows p q new 1
      → length new ≡ 1
      → Grows q r more count
      → Grows p r (new ++ more) (suc count)
  Grows-then p q r new more count g one h = record {
    grown = h.grown ∙ (ap (λ ts. ts ++ more) g.grown ∙ append_assoc p.tokens new more);
    sent =
        h.sent
        ∙ (ap (λ s. s ++ shapes_from (length q.tokens) count) g.sent
            ∙ (append_assoc (shapes p.sent) (shapes_from (length p.tokens) 1)
                  (shapes_from (length q.tokens) count)
                ∙ ap
                    (λ k.
                      shapes p.sent
                      ++ (shape_of candle weights (length p.tokens) ∷ shapes_from k count))
                    (ap length g.grown ∙ omega (arith, one, length-append p.tokens new))));
    enough = omega (arith, h.enough, one, length-append new more);
    few = omega (arith, h.few, one, length-append new more);
  }

  Ran : ℕ → Progress → Progress → Type 0
  Ran rounds p q = (new : List ℕ) × (count : ℕ) × Grows p q new count × (count ≤ rounds)

  abbrev chosen : Progress → Next → Progress × Result {0} Unit → Progress × Result {0} Unit
  chosen q next rest = elim next [ goes ↦ rest | stops result ↦ (q, result) ]

  -- What the rest of the loop does after a round.
  then_rest :
      (rounds : ℕ) (p q : Progress) (next : Next) (rest : Progress × Result {0} Unit)
      → Stepped p (q, next)
      → Ran rounds q rest.0
      → Ran (suc rounds) p (chosen q next rest).0
  unfolding Stepped Ran
  then_rest rounds p q goes rest (new, count, g, low, goes_on) (more, sent, h, few) =
      let (one, one_count) = goes_on refl in
      (
        new ++ more,
        suc sent,
        Grows-then p q rest.0 new more sent (subst (Grows p q new) one_count g) one h,
        omega (arith, few),
      )
  then_rest rounds p q (stops result) rest (new, count, g, low, goes_on) ran =
      (new, count, g, omega (arith, low))

  -- The loop keeps the tokens it had and adds new ones, and sends one payload for each of them and at
  -- most one more, never more than max_tokens; the first payload has the shape of all the tokens
  -- there were, and each later one that of one token more.
  pub generate_lem :
      (max_tokens : ℕ) (replies : List Reply) (p : Progress)
      → (new : List ℕ) × (count : ℕ) × Grows p
          (generate candle weights max_tokens replies p).0
          new
          count
        × (count ≤ max_tokens)
  unfolding generate Ran
  generate_lem zero replies p = ([], 0, nothing_sent p, omega arith)
  generate_lem (suc n) replies p =
      let after = round candle weights p (first_reply replies) in
      then_rest n p after.0 after.1 (generate candle weights n (other_replies replies) after.0)
        (round-Stepped p (first_reply replies)) (generate_lem n (other_replies replies) after.0)
