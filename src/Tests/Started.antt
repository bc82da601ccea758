-- ===== src/Tests/Started.antt =====
-- A worker that was started with a model on the layers 3 and 4, and a request that ends there.
use inference_mesh.Base.{
  Result, ℕ, ◌≡◌, refl, Option, none, some, List, [], ◌∷◌, ok, split, parse_digits, arith,
}
use inference_mesh.Protocol.Schema.{Bytes}
use inference_mesh.Protocol.Dtype.{f32}
use inference_mesh.Protocol.Request.{ForwardPassRequest, Payload}
use inference_mesh.Protocol.Request.RoundTrip.{IsSendable, build-Carries}
use inference_mesh.Protocol.Response.{ForwardPassResponse}
use inference_mesh.Protocol.Response.RoundTrip as Answer
use inference_mesh.P2p.Dht.{codes, layers_between, range}
use inference_mesh.P2p.Net.{inbound_request, send_response}
use inference_mesh.P2p.Worker
use inference_mesh.P2p.Worker.{Settings, output_bytes, step}
use inference_mesh.Compute.Config
use inference_mesh.Compute.Config.{ModelConfig, num_key_value_groups}
use inference_mesh.Compute.Block
use inference_mesh.Compute.Block.{
  TransformerBlock, forward_inner, to_heads, attend, repeat_kv, compute_attention_mask,
  feed_forward,
}
use inference_mesh.Compute.Rope
use inference_mesh.Compute.Block.Load.{load_from_safetensors, load_block_from_vb, linear_no_bias}
use inference_mesh.Compute.Engine
use inference_mesh.Compute.Engine.{load_blocks, load_layers, read_outputs}
use inference_mesh.Compute.Engine.Loaded.{AreLoaded, pass_through}
use inference_mesh.Cli.{parse_layers}
use inference_mesh.Cli.Start.{as_engine, worker_engine, parse_addrs, start_worker}
use inference_mesh.Cli.Answers.{step-start_worker}
use inference_mesh.Tests.Toy.{net, wire, wire-IsFaithful, answers}
use inference_mesh.Tests.Messages.{peers}
use inference_mesh.Tests.Compute.{Block3, candle, config, loaded}

abbrev no_file : Bytes → Option (ModelConfig ℕ)
no_file path = none

abbrev settings : Settings net
settings = record {
  local_peer_id = 11;
  start_layer = 3;
  end_layer = 4;
  engine = some (as_engine candle loaded.0);
}

abbrev read_addr : Bytes → Result net.Multiaddr
read_addr text = ok 5

starts :
    start_worker candle net read_addr 11 no_file (some (codes "model")) (codes "a,b") (codes "3-4")
    ≡ ok (5 ∷ 5 ∷ [], settings)
unfolding start_worker parse_addrs worker_engine parse_layers split parse_digits load_blocks
    load_layers load_from_safetensors load_block_from_vb linear_no_bias Config.head_dim
    Config.from_config num_key_value_groups layers_between range Engine.new
starts = refl

abbrev weights : List ℕ → Block3
weights shape = (shape, λ b r c. none)

abbrev block : TransformerBlock candle
block = record {
  input_layernorm = weights (128 ∷ []);
  post_attention_layernorm = weights (128 ∷ []);
  q_proj = weights (128 ∷ 128 ∷ []);
  k_proj = weights (128 ∷ 128 ∷ []);
  v_proj = weights (128 ∷ 128 ∷ []);
  o_proj = weights (128 ∷ 128 ∷ []);
  gate_proj = weights (256 ∷ 128 ∷ []);
  up_proj = weights (256 ∷ 128 ∷ []);
  down_proj = weights (128 ∷ 256 ∷ []);
  n_heads = 4;
  n_kv_heads = 4;
  n_kv_groups = 1;
  head_dim = 32;
  hidden_size = 128;
  eps = 0;
  rope = record { head_dim = 32; theta = 10000 };
}

blocks-AreLoaded : AreLoaded candle (codes "model") config (layers_between 3 4) (block ∷ block ∷ [])
unfolding load_from_safetensors load_block_from_vb linear_no_bias Config.head_dim Config.from_config
    num_key_value_groups layers_between range
blocks-AreLoaded = (refl, (refl, tt))

abbrev cube : Payload
cube = record { dtype = f32; shape = 1 ∷ 1 ∷ 2 ∷ []; bytes = 1 ∷ 2 ∷ 3 ∷ 4 ∷ 5 ∷ 6 ∷ 7 ∷ 8 ∷ [] }

cube-IsSendable : IsSendable wire peers 2 42 cube none
cube-IsSendable = record {
  small_route = omega arith;
  small_tensor = omega arith;
  small_mask = omega arith;
  fits = refl;
}

abbrev request : ForwardPassRequest
request = (build-Carries wire wire-IsFaithful peers 2 42 cube none cube-IsSendable).0

runs :
    pass_through candle (block ∷ block ∷ []) cube.bytes cube.dtype cube.shape ≡ ok (1 ∷ 1 ∷ 2 ∷ [])
unfolding Block.forward forward_inner to_heads attend repeat_kv compute_attention_mask feed_forward
    Rope.apply Rope.embed Rope.rotate_half read_outputs
runs = refl

step-start_worker_example :
    (response : ForwardPassResponse) × (step net settings answers
        (Worker.init net)
        (inbound_request 3 request 77)
      ≡ ok (Worker.init net, send_response 77 response ∷ []))
    × Answer.Carries wire response 42 (record cube { bytes = output_bytes (1 ∷ 1 ∷ 2 ∷ []) })
unfolding output_bytes
step-start_worker_example =
    step-start_worker candle net no_file (codes "model") wire-IsFaithful read_addr 11 (codes "a,b")
      (codes "3-4") (5 ∷ 5 ∷ []) settings starts (block ∷ block ∷ []) (1 ∷ 1 ∷ 2 ∷ [])
      blocks-AreLoaded answers (Worker.init net) 3 77 request
      (build-Carries wire wire-IsFaithful peers 2 42 cube none cube-IsSendable).2 runs refl
      (omega arith) refl
