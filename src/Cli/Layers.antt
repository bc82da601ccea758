-- ===== src/Cli/Layers.antt =====
-- What `parse_layers` (src/cli/src/main.rs) makes of a range of layers as it is written, and what
-- it accepts.
use inference_mesh.Base.{
  ℕ, zero, suc, ◌+◌, ◌-◌, ◌*◌, ◌/◌, ◌%◌, ◌^◌, ◌≤◌, ◌<◌, ◌≡◌, refl, ◌∙◌, ltb, ◌==◌, false, u32_mod,
  Bool-cases, inl, inr, if◌then◌else◌, Option, none, some, List, [], ◌∷◌, ◌++◌, All, All-append,
  length, length-append, ok, err, bad_layers, ok_or, >>=-eq-ok, split, split_plain, split-append,
  parse_digits, parse_unsigned, parse_unsigned_low, arith,
}
use native.Mathlib.Nat.{pow-suc}
use inference_mesh.Protocol.Schema.{Bytes}
use inference_mesh.P2p.Dht.{show_fuel, show_u32}
use inference_mesh.Cli.{parse_layers, read_parts, read_range}

-- Another reader after the first digits.
then_read : ℕ → Bytes → Option ℕ → Option ℕ
then_read modulus ys none = none
then_read modulus ys (some n) = parse_digits modulus n ys

parse_digits-append :
    (modulus acc : ℕ) (xs ys : Bytes)
    → parse_digits modulus acc (xs ++ ys) ≡ then_read modulus ys (parse_digits modulus acc xs)
unfolding parse_digits then_read
parse_digits-append modulus acc [] ys = refl
parse_digits-append modulus acc (x ∷ xs) ys =
    ground (arith, parse_digits-append modulus (acc * 10 + (x - b'0')) xs ys)

parse_digits-show_fuel :
    (modulus fuel n : ℕ)
    → n < modulus
    → n < 10 ^ fuel
    → parse_digits modulus 0 (show_fuel fuel n) ≡ some n
unfolding parse_digits then_read show_fuel
parse_digits-show_fuel modulus zero n low h = ground arith
parse_digits-show_fuel modulus (suc fuel) n low h = ground (
  arith,
  parse_digits-show_fuel modulus fuel (n / 10),
  parse_digits-append modulus 0 (show_fuel fuel (n / 10)) ((b'0' + n % 10) ∷ []),
  pow-suc 10 fuel,
)

-- No digit is a character that comes before the digits.
digits-All : (sep fuel n : ℕ) → sep < b'0' → All (λ c. (c == sep) ≡ false) (show_fuel fuel n)
unfolding show_fuel
digits-All sep zero n h = tt
digits-All sep (suc fuel) n h = elim (Bool-cases (ltb n 10)) [
  | inl small ↦ rw small (ground arith, tt)
  | inr large ↦ rw large (
      All-append _ (show_fuel fuel (n / 10)) ((b'0' + n % 10) ∷ []) (digits-All sep fuel (n / 10) h)
        (ground arith, tt))
]

show_fuel_some : (fuel n : ℕ) → 0 < length (show_fuel (suc fuel) n)
unfolding show_fuel
show_fuel_some fuel n = elim (Bool-cases (ltb n 10)) [
  | inl small ↦ rw small (omega arith)
  | inr large ↦
      rw large (omega (arith, length-append (show_fuel fuel (n / 10)) ((b'0' + n % 10) ∷ [])))
]

parse_unsigned_digits :
    (modulus : ℕ) (cs : Bytes)
    → 0 < length cs
    → All (λ c. (c == b'+') ≡ false) cs
    → parse_unsigned modulus cs ≡ parse_digits modulus 0 cs
parse_unsigned_digits modulus [] h d = elim h [ ]
parse_unsigned_digits modulus (c ∷ cs) h (d, ds) = rw d refl

-- The text of a number is read as that number.
parse_unsigned-show_u32 : (n : ℕ) → n < u32_mod → parse_unsigned u32_mod (show_u32 n) ≡ some n
unfolding show_u32
parse_unsigned-show_u32 n h =
    parse_unsigned_digits u32_mod (show_fuel 10 n) (show_fuel_some 9 n)
      (digits-All b'+' 10 n (omega arith))
    ∙ parse_digits-show_fuel u32_mod 10 n h (omega (arith, h))

no_dash : (n : ℕ) → All (λ c. (c == b'-') ≡ false) (show_u32 n)
unfolding show_u32
no_dash n = digits-All b'-' 10 n (omega arith)

-- A range that is written as two numbers and a dash between them is read as those two numbers, if
-- the first is not above the second, and refused otherwise. Both are numbers of 32 bits.
pub parse_layers_written :
    (start end : ℕ)
    → start < u32_mod
    → end < u32_mod
    → parse_layers (show_u32 start ++ (b'-' ∷ show_u32 end))
      ≡ (if ltb end start then err bad_layers else ok (start, end))
unfolding parse_layers
parse_layers_written start end hs he =
    rw
      (
        split-append b'-' (show_u32 start) (show_u32 end) (no_dash start),
        split_plain b'-' (show_u32 end) (no_dash end),
        parse_unsigned-show_u32 start hs,
        parse_unsigned-show_u32 end he,
      )
      refl

read_end : (o : Option ℕ) {n : ℕ} → ok_or o bad_layers ≡ ok n → o ≡ some n
read_end none e = cc
read_end (some n) e = cc

read_range_low :
    (first second : Bytes) (start end : ℕ)
    → read_range first second ≡ ok (start, end)
    → (start ≤ end) × (start < u32_mod) × (end < u32_mod)
read_range_low first second start end e =
    let (a, got_a, e1) = >>=-eq-ok (ok_or (parse_unsigned u32_mod first) bad_layers) _ e in
    let (b, got_b, e2) = >>=-eq-ok (ok_or (parse_unsigned u32_mod second) bad_layers) _ e1 in
    let low_a = parse_unsigned_low u32_mod a first (omega arith) (read_end _ got_a) in
    let low_b = parse_unsigned_low u32_mod b second (omega arith) (read_end _ got_b) in
    elim (Bool-cases (ltb b a)) [
      | inl below ↦ absurd (ground (arith, e2, below))
      | inr ordered ↦ ground (arith, e2, ordered, low_a, low_b)
    ]

read_parts_low :
    (parts : List Bytes) (start end : ℕ)
    → read_parts parts ≡ ok (start, end)
    → (start ≤ end) × (start < u32_mod) × (end < u32_mod)
read_parts_low [] start end e = cc
read_parts_low (a ∷ []) start end e = cc
read_parts_low (a ∷ b ∷ []) start end e = read_range_low a b start end e
read_parts_low (a ∷ b ∷ c ∷ parts) start end e = cc

-- A range that is accepted does not end before it starts, and both ends are numbers of 32 bits.
pub parse_layers_low :
    (s : Bytes) (start end : ℕ)
    → parse_layers s ≡ ok (start, end)
    → (start ≤ end) × (start < u32_mod) × (end < u32_mod)
unfolding parse_layers
parse_layers_low s start end e = read_parts_low (split b'-' s) start end e
