-- ===== src/P2p/BlockSelection/Best.antt =====
-- The blocks that are chosen are the weakest (src/p2p/src/block_selection.rs).
use inference_mesh.Base.{
  ℕ, zero, suc, ◌+◌, ◌-◌, ◌<◌, ◌≤◌, ◌≡◌, refl, sym, subst, Bool, true, false, ltb, ◌==◌, dec_lt,
  ℕ_discrete, if◌then◌else◌, Bool-cases, inl, inr, some, List, [], ◌∷◌, length, get_elem?,
  get_elem?_in, get_elem?_below, All, arith,
}
use inference_mesh.P2p.Types.{joining, RemoteModuleInfo}
use inference_mesh.P2p.Dht.{range}
use inference_mesh.P2p.ProviderCache.{is_empty}
use inference_mesh.P2p.BlockSelection.{
  Floats, IsOrdered, compute_throughputs, window_min, search, choose_best_blocks,
}
use inference_mesh.P2p.BlockSelection.Windows.{
  offered, length-compute_throughputs, get_elem?-compute_throughputs, window_min_below,
  window_min_found,
}

All-of_get_elem? :
    {A : Type 0} (Q : A → Type 0) (xs : List A)
    → ((i : ℕ) (a : A) → get_elem? xs i ≡ some a → Q a)
    → All Q xs
All-of_get_elem? Q [] h = tt
All-of_get_elem? Q (x ∷ xs) h = (h 0 x refl, All-of_get_elem? Q xs (λ i a e. h (suc i) a e))

module _ (f : Floats) where
  open f use {F}

  abbrev w : List F → ℕ → ℕ → F
  w ts n s = window_min f ts n s

  -- `r` is the best start so far and of the rounds that are left.
  abbrev Good : List F → ℕ → ℕ → ℕ → ℕ → ℕ → ℕ → Type 0
  Good ts n start left best_start bound r =
      (r ≤ bound)
      × (f.less (w ts n best_start) (w ts n r) ≡ false)
      × All (λ s. f.less (w ts n s) (w ts n r) ≡ false) (range start left)

  search_round :
      (ts : List F) (n start left best_start : ℕ) (best_min : F) (better : Bool)
      → f.less (w ts n start) best_min ≡ better
      → search f ts n start (suc left) best_start best_min
        ≡ search f ts n
            (start + 1)
            left
            (if better then start else best_start)
            (if better then w ts n start else best_min)
  unfolding search
  search_round ts n start left best_start best_min better e = rw e refl

  search-Good :
      (ts : List F) (n start left best_start bound : ℕ)
      → IsOrdered f
      → best_start ≤ bound
      → start + left ≤ bound + 1
      → Good ts n start left best_start bound
          (search f ts n start left best_start (w ts n best_start))
  unfolding range
  search-Good ts n start zero b bound o low far =
      unfold search in (low, o.irreflexive (w ts n b), tt)
  search-Good ts n start (suc left) b bound o low far =
      elim (Bool-cases (f.less (w ts n start) (w ts n b))) [
        | inl better ↦
            let r = search f ts n (start + 1) left start (w ts n start) in
            let (inside, least, all) =
              search-Good ts n (start + 1) left start bound o (omega arith) (omega arith) in
            let good : Good ts n start (suc left) b bound r =
              (inside, o.between _ _ _ (o.asymmetric _ _ better) least, (least, all)) in
            subst (λ x. Good ts n start (suc left) b bound x)
              (sym (search_round ts n start left b (w ts n b) true better)) good
        | inr worse ↦
            let r = search f ts n (start + 1) left b (w ts n b) in
            let (inside, least, all) =
              search-Good ts n (start + 1) left b bound o low (omega arith) in
            let good : Good ts n start (suc left) b bound r =
              (inside, least, (o.between _ _ _ worse least, all)) in
            subst (λ x. Good ts n start (suc left) b bound x)
              (sym (search_round ts n start left b (w ts n b) false worse)) good
      ]

  first_round :
      (ts : List F) (n left count : ℕ)
      → count ≡ suc left
      → f.less (w ts n 0) f.max_value ≡ true
      → (search f ts n 0 count 0 f.max_value ≡ search f ts n 1 left 0 (w ts n 0))
        × (range 0 count ≡ 0 ∷ range 1 left)
  first_round ts n left count e finite =
      (rw e (search_round ts n 0 left 0 f.max_value true finite), rw e (unfold range in refl))

  -- The start that is chosen has the least value of all starts.
  chosen_start :
      {P : Type 0} (n : ℕ) (infos : List (RemoteModuleInfo P F))
      → IsOrdered f
      → 0 < n
      → n ≤ length infos
      → f.less (w (compute_throughputs f infos joining) n 0) f.max_value ≡ true
      → (start : ℕ) × (choose_best_blocks f n infos ≡ some (range start n))
        × (start + n ≤ length infos)
        × All
            (λ s.
              f.less
                (w (compute_throughputs f infos joining) n s)
                (w (compute_throughputs f infos joining) n start)
              ≡ false)
            (range 0 (length infos - n + 1))
  unfolding choose_best_blocks
  chosen_start {P = P} n infos o pos room finite =
      let ts = compute_throughputs f infos joining in
      let left = length infos - n in
      let (searched, ranged) = first_round ts n left (left + 1) (omega arith) finite in
      let (inside, least, all) = search-Good ts n 1 left 0 left o (omega arith) (omega arith) in
      let some_infos : is_empty infos ≡ false = some_of infos (omega arith) in
      let wanted : (n == 0) ≡ false = ground arith in
      let enough : ltb (length infos) n ≡ false = ground arith in
      (
        search f ts n 1 left 0 (w ts n 0),
        rw (some_infos, wanted, enough, searched) refl,
        omega (arith, inside),
        rw ranged (least, all),
      )
    where
      some_of : (xs : List (RemoteModuleInfo P F)) → 0 < length xs → is_empty xs ≡ false
      some_of [] h = absurd (omega arith)
      some_of (x ∷ xs) h = refl

  All-range :
      (Q : ℕ → Type 0) (from count i : ℕ)
      → All Q (range from count)
      → from ≤ i
      → i < from + count
      → Q i
  unfolding range
  All-range Q from zero i all low high = absurd (omega arith)
  All-range Q from (suc count) i (first, all) low high = elim (ℕ_discrete from i) [
    | yes e ↦ subst Q e first
    | no other ↦ All-range Q (from + 1) count i all (omega (arith, other)) (omega arith)
  ]

  -- Some run covers each block.
  run_of :
      (n total j : ℕ)
      → 0 < n
      → n ≤ total
      → j < total
      → (s : ℕ) × (s < total - n + 1) × (s ≤ j) × (j < s + n)
  run_of n total j pos room below = elim (dec_lt j (total - n)) [
    | yes early ↦ (j, omega arith, omega arith, omega arith)
    | no late ↦ (total - n, omega arith, omega arith, omega arith)
  ]

  -- A run with a block that offers less than the largest number has a least value below it.
  first_finite :
      {P : Type 0} (n k : ℕ) (infos : List (RemoteModuleInfo P F)) {info : RemoteModuleInfo P F}
      → IsOrdered f
      → k < n
      → get_elem? infos k ≡ some info
      → f.less (offered f info) f.max_value ≡ true
      → f.less (w (compute_throughputs f infos joining) n 0) f.max_value ≡ true
  first_finite n k infos {info} o below found finite =
      let ts = compute_throughputs f infos joining in
      let least =
        window_min_below f ts n 0 k o (omega arith) (omega arith)
          (get_elem?-compute_throughputs f infos k found) in
      elim (Bool-cases (f.less (w ts n 0) f.max_value)) [
        | inl yes_less ↦ yes_less
        | inr not_less ↦ absurd (cc (o.between _ _ _ least not_less, finite))
      ]

  -- Over numbers that are ordered as f64 is without its NaNs, where no more blocks are wanted than
  -- there are, and some of the first so many blocks offers less than the largest number: the blocks
  -- chosen follow one another and are all there, and one of them is a weakest block of all, so that
  -- no block offers less. A block offers the throughputs of its servers that are not offline, added
  -- up.
  pub choose_best_blocks_lem :
      {P : Type 0} (n k : ℕ) (infos : List (RemoteModuleInfo P F)) {small : RemoteModuleInfo P F}
      → IsOrdered f
      → n ≤ length infos
      → k < n
      → get_elem? infos k ≡ some small
      → f.less (offered f small) f.max_value ≡ true
      → (start : ℕ) × (choose_best_blocks f n infos ≡ some (range start n))
        × (start + n ≤ length infos)
        × (i : ℕ) × (weakest : RemoteModuleInfo P F) × (start ≤ i)
        × (i < start + n)
        × (get_elem? infos i ≡ some weakest)
        × All (λ info. f.less (offered f info) (offered f weakest) ≡ false) infos
  choose_best_blocks_lem n k infos o room below found finite =
      let ts = compute_throughputs f infos joining in
      let (start, chosen, inside, least) =
        chosen_start n infos o (omega arith) room (first_finite n k infos o below found finite) in
      let long = length-compute_throughputs f infos in
      let (i, t, from, to, at, above) =
        window_min_found f ts n start o (omega arith) (omega (arith, inside, long)) in
      let (weakest, there) = get_elem?_in infos i (omega (arith, to, inside)) in
      let offers = get_elem?-compute_throughputs f infos i there in
      (
        start,
        chosen,
        inside,
        i,
        weakest,
        from,
        to,
        there,
        All-of_get_elem? _ infos (λ j info h.
            let (s, low, before, behind) =
              run_of n (length infos) j (omega arith) room (get_elem?_below infos j h) in
            let under =
              window_min_below f ts n s j o before behind
                (get_elem?-compute_throughputs f infos j h) in
            let best =
              All-range (λ s. f.less (w ts n s) (w ts n start) ≡ false) 0 (length infos - n + 1) s
                least (omega arith) (omega (arith, low)) in
            let same : t ≡ offered f weakest = cc in
            subst (λ x. f.less (offered f info) x ≡ false) same
              (o.between _ _ _ under (o.between _ _ _ best above))),
      )
