-- ===== src/Base/Text.antt =====
-- Text as a list of bytes: `str::split` at an ASCII character and `str::parse` to an unsigned
-- integer.
use Prim.Native.Nat.{ℕ, ◌+◌, ◌-◌, ◌*◌, ◌<◌}
use mathlib.Core.Path.{◌≡◌, refl}
use mathlib.Core.Bool.{Bool, false, ◌&&◌}
use mathlib.Core.Option.{Option, none, some}
use mathlib.Core.List.{List, [], ◌∷◌, ◌++◌}
use native.Mathlib.Omega.{arith}
use inference_mesh.Base.Tests.{if◌then◌else◌, ltb, leb, ◌==◌}
use inference_mesh.Base.Lists.{All}

abbrev pub add_to_first : ℕ → List (List ℕ) → List (List ℕ)
add_to_first x [] = (x ∷ []) ∷ []
add_to_first x (part ∷ parts) = (x ∷ part) ∷ parts

-- `s.split(sep)`, which has one part more than there are separators.
unfoldable pub split : ℕ → List ℕ → List (List ℕ)
split sep [] = [] ∷ []
split sep (x ∷ xs) = let rest = split sep xs in if x == sep then [] ∷ rest else add_to_first x rest

-- `Iterator::last`.
abbrev pub last {ℓ} : {A : Type ℓ} → List A → Option A
last [] = none
last (x ∷ []) = some x
last (x ∷ y ∷ ys) = last (y ∷ ys)

abbrev pub is_digit : ℕ → Bool
is_digit c = leb b'0' c && leb c b'9'

-- The digits after the number `acc`, all below `modulus`.
unfoldable pub parse_digits : ℕ → ℕ → List ℕ → Option ℕ
parse_digits modulus acc [] = some acc
parse_digits modulus acc (c ∷ cs) =
    let next = acc * 10 + (c - b'0') in
    let rest = parse_digits modulus next cs in if is_digit c && ltb next modulus then rest else none

abbrev pub some_digits : ℕ → List ℕ → Option ℕ
some_digits modulus [] = none
some_digits modulus (c ∷ cs) = parse_digits modulus 0 (c ∷ cs)

-- `s.parse::<u32>()` and `s.parse::<usize>()`, each with its modulus: digits, after a plus sign
-- or none. The errors are one `none`.
abbrev pub parse_unsigned : ℕ → List ℕ → Option ℕ
parse_unsigned modulus [] = none
parse_unsigned modulus (c ∷ cs) =
    if c == b'+' then some_digits modulus cs else some_digits modulus (c ∷ cs)

-- A text without separators, and one that has it ahead of a separator.
pub split_plain :
    (sep : ℕ) (xs : List ℕ) → All (λ x. (x == sep) ≡ false) xs → split sep xs ≡ xs ∷ []
unfolding split
split_plain sep [] h = refl
split_plain sep (x ∷ xs) (p, h) = rw (split_plain sep xs h, p) refl

pub split-append :
    (sep : ℕ) (xs ys : List ℕ)
    → All (λ x. (x == sep) ≡ false) xs
    → split sep (xs ++ (sep ∷ ys)) ≡ xs ∷ split sep ys
unfolding split
split-append sep [] ys h = ground arith
split-append sep (x ∷ xs) ys (p, h) = rw (split-append sep xs ys h, p) refl

pub parse_digits_low :
    (modulus acc n : ℕ) (cs : List ℕ)
    → acc < modulus
    → parse_digits modulus acc cs ≡ some n
    → n < modulus
unfolding parse_digits
parse_digits_low modulus acc n [] low e = ground arith
parse_digits_low modulus acc n (c ∷ cs) low e =
    ground (arith, parse_digits_low modulus (acc * 10 + (c - b'0')) n cs)

-- A number that is read is below the modulus.
pub parse_unsigned_low :
    (modulus n : ℕ) (cs : List ℕ) → 0 < modulus → parse_unsigned modulus cs ≡ some n → n < modulus
parse_unsigned_low modulus n [] low e = cc
parse_unsigned_low modulus n (c ∷ []) low e =
    ground (arith, parse_digits_low modulus 0 n (c ∷ []) low)
parse_unsigned_low modulus n (c ∷ d ∷ cs) low e = ground (
  arith,
  parse_digits_low modulus 0 n (d ∷ cs) low,
  parse_digits_low modulus 0 n (c ∷ d ∷ cs) low,
)
