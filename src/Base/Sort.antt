-- ===== src/Base/Sort.antt =====
-- `slice::sort_by`: a stable sort by a test that says when one element comes before another.
use mathlib.Core.Path.{◌≡◌}
use mathlib.Core.Logic.{inl, inr}
use mathlib.Core.Bool.{Bool, true, false}
use mathlib.Core.List.{List, [], ◌∷◌}
use inference_mesh.Base.Tests.{if◌then◌else◌, Bool-cases}
use inference_mesh.Base.Lists.{All, All-map}

module _ {ℓ} {A : Type ℓ} (less : A → A → Bool) where
  -- Puts an element before the first that does not have to come before it.
  unfoldable pub place : A → List A → List A
  place x [] = x ∷ []
  place x (y ∷ ys) = let rest = place x ys in if less y x then y ∷ rest else x ∷ y ∷ ys

  unfoldable pub sort_by : List A → List A
  unfolding place
  sort_by [] = []
  sort_by (x ∷ xs) = place x (sort_by xs)

  module _ {κ} (P : A → Type κ) where
    place-All : (x : A) (xs : List A) → P x → All P xs → All P (place x xs)
    unfolding place
    place-All x [] p h = (p, tt)
    place-All x (y ∷ ys) p (q, h) = elim (Bool-cases (less y x)) [
      | inl before ↦ rw before (q, place-All x ys p h)
      | inr after ↦ rw after (p, (q, h))
    ]

    -- What holds for all elements holds for all of them sorted.
    pub sort_by-All : (xs : List A) → All P xs → All P (sort_by xs)
    unfolding sort_by
    sort_by-All [] h = tt
    sort_by-All (x ∷ xs) (p, h) = place-All x (sort_by xs) p (sort_by-All xs h)

  -- No element comes before one that stands ahead of it.
  abbrev IsSorted : List A → Type ℓ
  IsSorted [] = Unit
  IsSorted (x ∷ xs) = All (λ y. less y x ≡ false) xs × IsSorted xs

  module _ (asym : (x y : A) → less x y ≡ true → less y x ≡ false)
      (trans : (x y z : A) → less y x ≡ false → less z y ≡ false → less z x ≡ false) where
    place-IsSorted : (x : A) (xs : List A) → IsSorted xs → IsSorted (place x xs)
    unfolding place
    place-IsSorted x [] h = (tt, tt)
    place-IsSorted x (y ∷ ys) (low, h) = elim (Bool-cases (less y x)) [
      | inl before ↦
          rw before
            (place-All (λ z. less z y ≡ false) x ys (asym y x before) low, place-IsSorted x ys h)
      | inr after ↦ rw after ((after, All-map ys (λ z e. trans x y z after e) low), (low, h))
    ]

    sort_by-IsSorted : (xs : List A) → IsSorted (sort_by xs)
    unfolding sort_by
    sort_by-IsSorted [] = tt
    sort_by-IsSorted (x ∷ xs) = place-IsSorted x (sort_by xs) (sort_by-IsSorted xs)
