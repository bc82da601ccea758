-- ===== src/Cli/Start.antt =====
-- src/cli/src/main.rs, the `worker` command: from the range of layers and the path of a model to
-- the settings with which `run_worker` is called. The path's `config.json` is read by `from_file`.
use inference_mesh.Base.{ℕ, Option, none, some, List, [], ◌∷◌, split, Result, ok, ◌>>=◌}
use inference_mesh.Protocol.Schema.{Bytes}
use inference_mesh.P2p.Net.{Net, Engine}
use inference_mesh.P2p.Worker.{Settings}
use inference_mesh.Compute.Candle.{Candle}
use inference_mesh.Compute.Config.{ModelConfig}
use inference_mesh.Compute.Block.Load.{test_config}
use inference_mesh.Compute.Engine
use inference_mesh.Compute.Engine.{ComputeEngine, load_blocks, process_terminal_pass}
use inference_mesh.Cli.{parse_layers}

-- `bootstrap.split(',').map(|s| s.parse()).collect()`.
unfoldable pub parse_addrs {ℓ} : {M : Type ℓ} → (Bytes → Result M) → List Bytes → Result (List M)
parse_addrs parse [] = ok []
parse_addrs parse (s ∷ rest) = do addr ← parse s; addrs ← parse_addrs parse rest; ok (addr ∷ addrs)

module _ (candle : Candle) where
  open candle use {F64}

  -- The loaded engine as the worker calls it: with no mask.
  abbrev pub as_engine : ComputeEngine candle → Engine
  as_engine eng start_layer end_layer bytes dtype shape =
      process_terminal_pass candle eng start_layer end_layer bytes dtype shape none none none

  abbrev pub config_or_test : Option (ModelConfig F64) → ModelConfig F64
  config_or_test none = test_config candle candle.small_eps candle.rope_base
  config_or_test (some config) = config

  abbrev pub loaded_engine : ComputeEngine candle × Result {0} Unit → Result (Option Engine)
  loaded_engine (eng, done) = done >>= λ _. ok (some (as_engine eng))

  unfoldable pub worker_engine :
      (Bytes → Option (ModelConfig F64)) → Option Bytes → ℕ → ℕ → Result (Option Engine)
  worker_engine from_file none start end = ok none
  worker_engine from_file (some model_path) start end = loaded_engine (
      load_blocks candle (Engine.new candle) model_path (config_or_test (from_file model_path))
        start end)

  -- The bootstrap addresses, which `parse_addr` of libp2p reads, and the settings. The device is one
  -- that is there.
  unfoldable pub start_worker :
      (net : Net)
      → (Bytes → Result net.Multiaddr)
      → net.PeerId
      → (Bytes → Option (ModelConfig F64))
      → Option Bytes
      → Bytes
      → Bytes
      → Result (List net.Multiaddr × Settings net)
  start_worker net parse_addr peer_id from_file model_path bootstrap layers = do
    (start, end) ← parse_layers layers
    bootstrap_addrs ← parse_addrs parse_addr (split b',' bootstrap)
    engine ← worker_engine from_file model_path start end
    let settings : Settings net = record {
      local_peer_id = peer_id;
      start_layer = start;
      end_layer = end;
      engine = engine;
    }
    ok (bootstrap_addrs, settings)
