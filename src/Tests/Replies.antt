-- ===== src/Tests/Replies.antt =====
-- A worker that starts with a model of two layers, on tensors that are shapes.
use inference_mesh.Base.{
  ℕ, ◌≡◌, refl, Option, some, [], ◌∷◌, Result, ok, split, parse_digits, arith,
}
use inference_mesh.Protocol.Schema.{Bytes}
use inference_mesh.Protocol.Dtype.{f32}
use inference_mesh.Protocol.Request.{Payload}
use inference_mesh.P2p.Dht.{codes, layers_between, range}
use inference_mesh.P2p.Worker.{Settings}
use inference_mesh.P2p.Network.{Replies}
use inference_mesh.Compute.Config
use inference_mesh.Compute.Config.{ModelConfig, num_key_value_groups, num_key_value_heads}
use inference_mesh.Compute.Block.Load.{load_from_safetensors, load_block_from_vb, linear_no_bias}
use inference_mesh.Compute.Engine
use inference_mesh.Compute.Engine.{load_blocks, load_layers}
use inference_mesh.Cli.{parse_layers}
use inference_mesh.Cli.Start.{as_engine, worker_engine, parse_addrs, start_worker}
use inference_mesh.Cli.Replies.{IsSequence, start_worker-Replies}
use inference_mesh.Tests.Toy.{net}
use inference_mesh.Tests.Shapes.{
  zeros_of, shapes, holds_f32, shapes-HasLayout, shapes-HasArithmetic, shapes-HasWeights,
}
use inference_mesh.Tests.Answers.{grouped_config, grouped_config-FitsTogether, loaded}

abbrev pub file : Bytes → Option (ModelConfig ℕ)
file path = some grouped_config

abbrev pub settings : Settings net
settings = record {
  local_peer_id = 11;
  start_layer = 3;
  end_layer = 4;
  engine = some (as_engine shapes loaded.0);
}

abbrev pub read_addr : Bytes → Result net.Multiaddr
read_addr text = ok 5

pub starts :
    start_worker shapes net read_addr 11 file (some (codes "model")) (codes "a") (codes "3-4")
    ≡ ok (5 ∷ [], settings)
unfolding start_worker parse_addrs worker_engine parse_layers split parse_digits load_blocks
    load_layers load_from_safetensors load_block_from_vb linear_no_bias Config.head_dim
    Config.from_config num_key_value_groups num_key_value_heads layers_between range Engine.new
starts = refl

-- Two hidden states of eight numbers.
abbrev two_states : Payload
two_states = record { dtype = f32; shape = 1 ∷ 2 ∷ 8 ∷ []; bytes = zeros_of 64 }

start_worker-Replies_example :
    (out : Payload) × Replies net settings two_states out
    × IsSequence shapes holds_f32 net file (codes "model") 2 out
start_worker-Replies_example =
    start_worker-Replies shapes holds_f32 net file (codes "model") shapes-HasLayout
      shapes-HasArithmetic shapes-HasWeights 1 2 grouped_config-FitsTogether read_addr 11
      (codes "a") (codes "3-4") (5 ∷ []) settings starts two_states 2 (refl, refl, refl)
      (omega arith) (omega arith)
