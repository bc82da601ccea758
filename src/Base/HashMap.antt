-- ===== src/Base/HashMap.antt =====
-- `std::collections::HashMap` as a list of entries with distinct keys. The order of the list is
-- the order in which the map is iterated, which the program may not rely on.
use mathlib.Core.Path.{◌≡◌, refl, ap}
use mathlib.Core.Logic.{ite}
use mathlib.Core.Bool.{Bool, true, false}
use mathlib.Core.Option.{Option, none, some}
use mathlib.Core.List.{List, [], ◌∷◌}
use native.Mathlib.Omega.{arith}

abbrev pub HashMap {ℓ} : Type ℓ → Type ℓ → Type ℓ
HashMap K V = List (K × V)

-- Keys that are pairs.
unfoldable pub pair_discrete {ℓ κ} :
    {A : Type ℓ} {B : Type κ} → Discrete A → Discrete B → Discrete (A × B)
pair_discrete same_a same_b (a, b) (c, d) = elim (same_a a c) [
  | yes p ↦ elim (same_b b d) [
    | yes q ↦ yes (λ i. (p i, q i))
    | no n ↦ no (λ e. n (ap (λ x. x.1) e))
  ]
  | no n ↦ no (λ e. n (ap (λ x. x.0) e))
]

module _ {ℓ} {K V : Type ℓ} (same : Discrete K) where
  unfoldable pub get : K → HashMap K V → Option V
  get k [] = none
  get k ((j, v) ∷ m) = ite (same j k) (some v) (get k m)

  unfoldable pub insert : K → V → HashMap K V → HashMap K V
  insert k v [] = (k, v) ∷ []
  insert k v ((j, w) ∷ m) = ite (same j k) ((k, v) ∷ m) ((j, w) ∷ insert k v m)

  unfoldable pub remove : K → HashMap K V → HashMap K V
  remove k [] = []
  remove k ((j, v) ∷ m) = ite (same j k) (remove k m) ((j, v) ∷ remove k m)

  abbrev pub is_some : Option V → Bool
  is_some none = false
  is_some (some v) = true

  abbrev pub contains_key : K → HashMap K V → Bool
  contains_key k m = is_some (get k m)

  pub get-insert :
      (k j : K) (v : V) (m : HashMap K V) → get j (insert k v m) ≡ ite (same k j) (some v) (get j m)
  unfolding get insert
  get-insert k j v [] = refl
  get-insert k j v ((i, w) ∷ m) = ground (arith, get-insert k j v m)

  pub get-remove : (k j : K) (m : HashMap K V) → get j (remove k m) ≡ ite (same k j) none (get j m)
  unfolding get remove
  get-remove k j [] = ground arith
  get-remove k j ((i, w) ∷ m) = ground (arith, get-remove k j m)

module _ {ℓ} {K V : Type ℓ} (same : Discrete K) where
  -- No key has two entries. Every operation of the program keeps this.
  abbrev pub IsKeyed : HashMap K V → Type ℓ
  IsKeyed [] = Unit
  IsKeyed ((k, v) ∷ m) = (get same k m ≡ none) × IsKeyed m

  pub insert-IsKeyed : (k : K) (v : V) (m : HashMap K V) → IsKeyed m → IsKeyed (insert same k v m)
  unfolding insert
  insert-IsKeyed k v [] h = (unfold get in refl, tt)
  insert-IsKeyed k v ((j, w) ∷ m) (new, h) =
      ground (arith, insert-IsKeyed k v m h, get-insert same k j v m)

  pub remove-IsKeyed : (k : K) (m : HashMap K V) → IsKeyed m → IsKeyed (remove same k m)
  unfolding remove
  remove-IsKeyed k [] h = tt
  remove-IsKeyed k ((j, w) ∷ m) (new, h) =
      ground (arith, remove-IsKeyed k m h, get-remove same k j m)
