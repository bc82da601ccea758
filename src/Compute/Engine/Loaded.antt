-- ===== src/Compute/Engine/Loaded.antt =====
-- A pass through the layers that were loaded (src/compute/src/engine.rs).
use inference_mesh.Base.{
  ℕ, zero, suc, ◌+◌, ◌-◌, ◌<◌, ◌≡◌, refl, sym, ap, ◌∙◌, if_pos, if_neg, Option, none, some, List,
  [], ◌∷◌, get_elem?, ℕ_discrete, Result, ok, err, panic, or_panic, ◌>>=◌, >>=-assoc, arith,
}
use inference_mesh.Base.HashMap
use inference_mesh.Protocol.Schema.{Bytes}
use inference_mesh.Protocol.Dtype.{Dtype}
use inference_mesh.P2p.Dht.{range, layers_between}
use inference_mesh.Compute.Candle.{Candle}
use inference_mesh.Compute.Config.{ModelConfig}
use inference_mesh.Compute.Block
use inference_mesh.Compute.Block.{TransformerBlock}
use inference_mesh.Compute.Block.Load.{load_from_safetensors}
use inference_mesh.Compute.Engine.{
  ComputeEngine, insert_block, load_layers, load_blocks, forward, run_layers, read_outputs,
  read_tensors, join, first_output, process_terminal_pass,
}

module _ (candle : Candle) where
  open candle use {Tensor, F64}

  -- One block after the other.
  abbrev pub through : List (TransformerBlock candle) → Tensor → Option Tensor → Result Tensor
  through [] x mask = ok x
  through (block ∷ blocks) x mask =
      Block.forward candle block x mask >>= λ next. through blocks next mask

  -- What a pass gives, from the bytes of a tensor to the output of the batch's first sequence.
  abbrev pub pass_through :
      List (TransformerBlock candle) → Bytes → Dtype → List ℕ → Result (List ℕ)
  pass_through blocks bytes dtype shape = do
    x ← candle.from_raw_buffer bytes dtype shape
    y ← through blocks x none
    b ← or_panic (get_elem? (candle.dims y) 0)
    outputs ← read_outputs candle y 0 b
    ok (first_output outputs)

  -- The blocks are those of the layers, in their order.
  abbrev pub AreLoaded : Bytes → ModelConfig F64 → List ℕ → List (TransformerBlock candle) → Type 0
  AreLoaded path config [] [] = Unit
  AreLoaded path config [] (b ∷ bs) = ⊥
  AreLoaded path config (l ∷ ls) [] = ⊥
  AreLoaded path config (l ∷ ls) (b ∷ bs) =
      (load_from_safetensors candle path config l ≡ ok b) × AreLoaded path config ls bs

  abbrev Loading : Type 0
  Loading = ComputeEngine candle × Result {0} Unit

  loaded_first :
      (e e' : ComputeEngine candle) (r : Result (TransformerBlock candle))
      (next : TransformerBlock candle → Loading)
      → ◌≡◌ {A = Loading}
          (elim r [ ok b ↦ next b | err why ↦ (e, err why) | panic ↦ (e, panic) ])
          (e', ok tt)
      → (b : TransformerBlock candle) × (r ≡ ok b) × (next b ≡ (e', ok tt))
  loaded_first e e' (ok b) next done = (b, refl, done)
  loaded_first e e' (err why) next done = cc (ap (λ x. x.1) done)
  loaded_first e e' panic next done = cc (ap (λ x. x.1) done)

  load_step :
      (e e' : ComputeEngine candle) (path : Bytes) (config : ModelConfig F64) (l : ℕ) (ls : List ℕ)
      → load_layers candle e path config (l ∷ ls) ≡ (e', ok tt)
      → (b : TransformerBlock candle) × (load_from_safetensors candle path config l ≡ ok b)
        × (load_layers candle (insert_block candle e l b) path config ls ≡ (e', ok tt))
  unfolding load_layers
  load_step e e' path config l ls done =
      loaded_first e e' (load_from_safetensors candle path config l) _ done

  -- Later layers leave an earlier one as it is.
  get-load_layers :
      (e e' : ComputeEngine candle) (path : Bytes) (config : ModelConfig F64) (i start count : ℕ)
      → i < start
      → load_layers candle e path config (range start count) ≡ (e', ok tt)
      → HashMap.get ℕ_discrete i e'.blocks ≡ HashMap.get ℕ_discrete i e.blocks
  unfolding load_layers range
  get-load_layers e e' path config i start zero h done =
      ap (λ x. HashMap.get ℕ_discrete i x.0.blocks) (sym done)
  get-load_layers e e' path config i start (suc count) h done =
      let (b, loaded, rest) = load_step e e' path config start (range (start + 1) count) done in
      get-load_layers (insert_block candle e start b) e' path config i (start + 1) count
        (omega (arith, h)) rest
      ∙ (HashMap.get-insert ℕ_discrete start i b e.blocks
          ∙ if_neg (ℕ_discrete start i) (λ q. omega (arith, h, q)) _ _)

  -- Running the loaded layers runs their blocks.
  run_layers_loaded :
      (e e' : ComputeEngine candle) (path : Bytes) (config : ModelConfig F64) (start count : ℕ)
      → load_layers candle e path config (range start count) ≡ (e', ok tt)
      → (bs : List (TransformerBlock candle)) × AreLoaded path config (range start count) bs
        × ((x : Tensor) (mask : Option Tensor)
            → run_layers candle e' (range start count) x mask ≡ through bs x mask)
  unfolding load_layers range run_layers forward
  run_layers_loaded e e' path config start zero done = ([], tt, λ x mask. refl)
  run_layers_loaded e e' path config start (suc count) done =
      let (b, loaded, rest) = load_step e e' path config start (range (start + 1) count) done in
      let e1 = insert_block candle e start b in
      let (bs, others, runs) = run_layers_loaded e1 e' path config (start + 1) count rest in
      let here : HashMap.get ℕ_discrete start e'.blocks ≡ some b =
        get-load_layers e1 e' path config start (start + 1) count (omega arith) rest
        ∙ (HashMap.get-insert ℕ_discrete start start b e.blocks
            ∙ if_pos (ℕ_discrete start start) refl _ _) in
      (
        b ∷ bs,
        (loaded, others),
        λ x mask.
            rw here (ap (λ next. Block.forward candle b x mask >>= next) (λ i y. runs y mask i)),
      )

  -- What a pass does with the tensor that was read.
  pass_with :
      (read : Result Tensor) (run pass : Tensor → Result Tensor)
      → ((x : Tensor) → run x ≡ pass x)
      → ((read >>= λ t. ok (t ∷ [])) >>= λ tensors. join candle tensors >>= λ batch.
            run batch >>= λ y.
            or_panic (get_elem? (candle.dims y) 0) >>= λ b. read_outputs candle y 0 b)
          >>= (λ results. ok (first_output results))
        ≡ (do
          x ← read
          y ← pass x
          b ← or_panic (get_elem? (candle.dims y) 0)
          outputs ← read_outputs candle y 0 b
          ok (first_output outputs))
  pass_with panic run pass same = refl
  pass_with (err why) run pass same = refl
  pass_with (ok x) run pass same =
      ap (λ r. (r >>= outputs) >>= finish) (same x)
      ∙ (>>=-assoc (pass x) outputs finish
          ∙ ap (λ next. pass x >>= next)
              (λ i y.
                >>=-assoc (or_panic (get_elem? (candle.dims y) 0)) (λ b. read_outputs candle y 0 b)
                  finish i))
    where
      outputs : Tensor → Result (List (List ℕ))
      outputs y = or_panic (get_elem? (candle.dims y) 0) >>= λ b. read_outputs candle y 0 b

      finish : List (List ℕ) → Result (List ℕ)
      finish results = ok (first_output results)

  -- After the layers from start_layer to end_layer were loaded without an error, a terminal pass
  -- through them reads the tensor, runs the blocks of those layers in order, each as it was read
  -- from the model, and gives the output of the first sequence of the batch.
  pub process_terminal_pass-load_blocks :
      (e e' : ComputeEngine candle) (path : Bytes) (config : ModelConfig F64)
      (start_layer end_layer : ℕ)
      → load_blocks candle e path config start_layer end_layer ≡ (e', ok tt)
      → (bs : List (TransformerBlock candle)) × AreLoaded path config
          (layers_between start_layer end_layer)
          bs
        × ((bytes : Bytes) (dtype : Dtype) (shape : List ℕ)
            → process_terminal_pass candle e' start_layer end_layer bytes dtype shape none none none
              ≡ pass_through bs bytes dtype shape)
  unfolding process_terminal_pass load_blocks layers_between read_tensors
  process_terminal_pass-load_blocks e e' path config start_layer end_layer done =
      let (bs, are, runs) =
        run_layers_loaded _ e' path config start_layer (end_layer + 1 - start_layer) done in
      (
        bs,
        are,
        λ bytes dtype shape.
            pass_with (candle.from_raw_buffer bytes dtype shape) _ (λ x. through bs x none)
              (λ x. runs x none),
      )
