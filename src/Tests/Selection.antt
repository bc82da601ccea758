-- ===== src/Tests/Selection.antt =====
-- Block selection with numbers for throughputs, in which those from 1000 on count as infinite, and
-- the times of peers.
use inference_mesh.Base.{
  ℕ, ◌+◌, ◌/◌, ◌≤◌, ◌<◌, ◌≡◌, refl, false, ltb, some, get_elem?, List, [], ◌∷◌, length, All, min,
  arith,
}
use inference_mesh.P2p.Types
use inference_mesh.P2p.Types.{ServerState, online, offline, joining, RemoteModuleInfo}
use inference_mesh.P2p.Dht.{range}
use inference_mesh.P2p.BlockSelection.{
  Floats, IsOrdered, add_servers, fold_min, compute_throughputs, search, choose_best_blocks,
}
use inference_mesh.P2p.BlockSelection.Best.{choose_best_blocks_lem}
use inference_mesh.P2p.BlockSelection.Windows.{offered}
use inference_mesh.P2p.Ping.{PingAggregator}

abbrev floats : Floats
floats = record {
  F = ℕ;
  zero = 0;
  infinity = 1000;
  max_value = 999;
  tiny = 1;
  add = λ x y. x + y;
  min = λ x y. min x y;
  div = λ x y. x / y;
  less = λ x y. ltb (min x 1000) (min y 1000);
}

floats-IsOrdered : IsOrdered floats
floats-IsOrdered = record {
  irreflexive = λ x. ground arith;
  asymmetric = λ x y h. ground arith;
  between = λ x y z h k. ground arith;
  top = λ x. ground arith;
  min_left = λ x y. ground arith;
  min_right = λ x y. ground arith;
  min_either = λ x y. ground arith;
}

abbrev served : ServerState → ℕ → RemoteModuleInfo ℕ ℕ
served state throughput = record { uid = []; servers = (7, Types.new state throughput) ∷ [] }

abbrev infos : List (RemoteModuleInfo ℕ ℕ)
infos = served online 5 ∷ served joining 3 ∷ served offline 9 ∷ served online 8 ∷ []

infos_throughputs : compute_throughputs floats infos joining ≡ 5 ∷ 3 ∷ 0 ∷ 8 ∷ []
unfolding compute_throughputs add_servers Types.new
infos_throughputs = refl

infos_chosen : choose_best_blocks floats 2 infos ≡ some (1 ∷ 2 ∷ [])
unfolding choose_best_blocks compute_throughputs add_servers fold_min search range Types.new
infos_chosen = refl

choose_best_blocks_lem_example :
    (start : ℕ) × (choose_best_blocks floats 2 infos ≡ some (range start 2))
    × (start + 2 ≤ length infos)
    × (i : ℕ) × (weakest : RemoteModuleInfo ℕ ℕ) × (start ≤ i)
    × (i < start + 2)
    × (get_elem? infos i ≡ some weakest)
    × All (λ info. floats.less (offered floats info) (offered floats weakest) ≡ false) infos
unfolding Types.new
choose_best_blocks_lem_example =
    choose_best_blocks_lem floats 2 1 infos floats-IsOrdered (omega arith) (omega arith) refl refl

-- Peer 7 was heard of at 90, and peer 8 at 40.
abbrev times : PingAggregator ℕ ℕ
times = record { rtts = (7, 30) ∷ (8, 20) ∷ []; last_ping = (7, 90) ∷ (8, 40) ∷ [] }
