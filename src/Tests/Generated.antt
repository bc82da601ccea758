-- ===== src/Tests/Generated.antt =====
-- Two rounds of the loop of `generate`, of which the second meets a closed channel.
use inference_mesh.Base.{ℕ, ◌≤◌, ◌≡◌, refl, List, [], ◌∷◌, ok, none, arith}
use inference_mesh.Protocol.Response.{ForwardPassResponse}
use inference_mesh.Cli.Generate.{answered, closed, Progress, Weights, generate, round, payload_of}
use inference_mesh.Cli.Generate.Rounds.{Grows, generate_lem, shapes}
use inference_mesh.P2p.Worker.{output_bytes}
use inference_mesh.Tests.Compute.{candle}
use inference_mesh.Protocol.Response.RoundTrip.{build_response-Carries}
use inference_mesh.Tests.Toy.{wire, wire-IsFaithful}
use inference_mesh.Tests.Messages.{tensor}

abbrev weights : Weights candle
weights = record {
  hidden_size = 2;
  embed_tokens = ([], λ b r c. none);
  norm = ([], λ b r c. none);
  norm_eps = 0;
  lm_head_weight = ([], λ b r c. none);
  decode = λ token. ok (token ∷ []);
}

abbrev response : ForwardPassResponse
response = (build_response-Carries wire wire-IsFaithful 42 tensor (omega arith) refl).0

abbrev start : Progress
start = record { tokens = 5 ∷ 6 ∷ []; sent = []; printed = [] }

generate_lem_example :
    (new : List ℕ) × (count : ℕ) × Grows candle weights start
      (generate candle weights 3 (answered response ∷ closed ∷ []) start).0
      new
      count
    × (count ≤ 3)
generate_lem_example = generate_lem candle weights 3 (answered response ∷ closed ∷ []) start

sends_shape : shapes (generate candle weights 3 (closed ∷ []) start).0.sent ≡ (1 ∷ 2 ∷ 2 ∷ []) ∷ []
unfolding generate round payload_of output_bytes
sends_shape = refl
