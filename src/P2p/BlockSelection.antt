-- ===== src/P2p/BlockSelection.antt =====
-- src/p2p/src/block_selection.rs: which blocks a server should hold.
pub mod Best
pub mod Windows
use inference_mesh.Base.{
  ℕ, zero, suc, ◌+◌, ◌-◌, Bool, true, false, ◌&&◌, ◌||◌, leb, ltb, ◌==◌, if◌then◌else◌, Option,
  none, some, List, [], ◌∷◌, map, length, take, drop, ◌≡◌, ◌⊎◌,
}
use inference_mesh.Base.HashMap.{HashMap}
use inference_mesh.P2p.Types.{ServerState, as_u8, joining, ServerInfo, RemoteModuleInfo}
use inference_mesh.P2p.Dht.{range}
use inference_mesh.P2p.ProviderCache.{is_empty}

-- `f64`, without its NaNs: `less` is `<`, and `min` is `f64::min`.
pub record Floats : Type 1 where
  pub F : Type 0
  pub zero : F
  pub infinity : F
  pub max_value : F
  pub tiny : F
  pub add : F → F → F
  pub min : F → F → F
  pub div : F → F → F
  pub less : F → F → Bool

-- `<` on such numbers is a strict weak order with no number above infinity, and `min` is the one of
-- its arguments that the other is not below.
pub record IsOrdered (f : Floats) : Type 0 where
  pub irreflexive : (x : f.F) → f.less x x ≡ false
  pub asymmetric : (x y : f.F) → f.less x y ≡ true → f.less y x ≡ false
  pub between : (x y z : f.F) → f.less x y ≡ false → f.less y z ≡ false → f.less x z ≡ false
  pub top : (x : f.F) → f.less f.infinity x ≡ false
  pub min_left : (x y : f.F) → f.less x (f.min x y) ≡ false
  pub min_right : (x y : f.F) → f.less y (f.min x y) ≡ false
  pub min_either : (x y : f.F) → (f.min x y ≡ x) ⊎ (f.min x y ≡ y)

module _ (f : Floats) where
  open f use {F}

  -- The sum for one module: the servers whose state is at least the given one.
  unfoldable pub add_servers : {P : Type 0} → ServerState → F → HashMap P (ServerInfo F) → F
  add_servers min_state sum [] = sum
  add_servers min_state sum ((peer, info) ∷ servers) =
      add_servers min_state
        (if leb (as_u8 min_state) (as_u8 info.state) then f.add sum info.throughput else sum)
        servers

  unfoldable pub compute_throughputs :
      {P : Type 0} → List (RemoteModuleInfo P F) → ServerState → List F
  unfolding add_servers
  compute_throughputs module_infos min_state =
      map (λ info. add_servers min_state f.zero info.servers) module_infos

  -- `fold(f64::INFINITY, f64::min)`.
  unfoldable pub fold_min : F → List F → F
  fold_min least [] = least
  fold_min least (x ∷ xs) = fold_min (f.min least x) xs

  -- The least of `throughputs[start..start + num_blocks]`, which the caller keeps in range.
  abbrev pub window_min : List F → ℕ → ℕ → F
  window_min throughputs num_blocks start =
      fold_min f.infinity (take num_blocks (drop start throughputs))

  -- The loop over `start`, with the number of rounds that are left.
  unfoldable pub search : List F → ℕ → ℕ → ℕ → ℕ → F → ℕ
  search throughputs num_blocks start zero best_start best_min = best_start
  search throughputs num_blocks start (suc left) best_start best_min =
      let min_val = window_min throughputs num_blocks start in
      let better = f.less min_val best_min in
      search throughputs num_blocks (start + 1) left (if better then start else best_start)
        (if better then min_val else best_min)

  unfoldable pub choose_best_blocks :
      {P : Type 0} → ℕ → List (RemoteModuleInfo P F) → Option (List ℕ)
  unfolding compute_throughputs fold_min search
  choose_best_blocks num_blocks module_infos =
      let total_blocks = length module_infos in
      let throughputs = compute_throughputs module_infos joining in
      let best_start =
        search throughputs num_blocks 0 (total_blocks - num_blocks + 1) 0 f.max_value in
      if is_empty module_infos || num_blocks == 0
      then none
      else if ltb total_blocks num_blocks
      then some (range 0 total_blocks)
      else some (range best_start num_blocks)

  unfoldable pub any_tiny : List F → Bool
  any_tiny [] = false
  any_tiny (t ∷ ts) = f.less t f.tiny || any_tiny ts

  unfoldable pub should_choose_other_blocks :
      {P : Type 0} → F → ℕ → List (RemoteModuleInfo P F) → F → Bool
  unfolding compute_throughputs fold_min any_tiny
  should_choose_other_blocks local_peer_throughput local_num_blocks module_infos balance_quality =
      let throughputs = compute_throughputs module_infos joining in
      let initial_min = fold_min f.infinity throughputs in
      let needed_min = f.div initial_min balance_quality in
      if is_empty module_infos || local_num_blocks == 0
      then false
      else if f.less initial_min f.tiny && any_tiny throughputs
      then false
      else f.less initial_min needed_min
