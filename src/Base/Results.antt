-- ===== src/Base/Results.antt =====
-- What fallible code returns: `io::Result`, `candle_core::Result` and `anyhow::Result`, with the
-- panic of the thread as a third outcome.
use Prim.Native.Nat.{ℕ}
use mathlib.Core.Path.{◌≡◌, refl}
use mathlib.Core.Option.{Option, none, some}

pub data Error : Type 0 where
  capnp_error invalid_peer_id unknown_dtype unexpected_eof : Error
  providing_failed outbound_failed no_chain : Error
  tensor_error cache_full bad_layers : Error
  json_error store_failed channel_closed : Error
  layer_not_loaded : ℕ → Error

pub data Result {ℓ} (T : Type ℓ) : Type ℓ where
  panic : Result T
  ok : T → Result T
  err : Error → Result T

-- `Option::ok_or`.
abbrev pub ok_or {ℓ} : {A : Type ℓ} → Option A → Error → Result A
ok_or none e = err e
ok_or (some a) e = ok a

-- `Result::unwrap_or` on a result that cannot panic: a panic stays one.
abbrev pub unwrap_or {ℓ} : {A : Type ℓ} → Result A → A → Result A
unwrap_or (ok a) d = ok a
unwrap_or (err e) d = ok d
unwrap_or panic d = panic

-- An index or a slice that the code does not check.
abbrev pub or_panic {ℓ} : {A : Type ℓ} → Option A → Result A
or_panic none = panic
or_panic (some a) = ok a

-- `?`, and a panic ends the thread.
infixl 5 ◌>>=◌
abbrev pub ◌>>=◌ {κ μ} : {S : Type κ} {T : Type μ} → Result S → (S → Result T) → Result T
panic >>= next = panic
err why >>= next = err why
ok s >>= next = next s

-- Both steps of a chain that returned have returned.
pub >>=-eq-ok {κ μ} :
    {S : Type κ} {T : Type μ} {t : T} (first : Result S) (next : S → Result T)
    → first >>= next ≡ ok t
    → (s : S) × (first ≡ ok s) × (next s ≡ ok t)
>>=-eq-ok panic next e = cc
>>=-eq-ok (err why) next e = cc
>>=-eq-ok (ok s) next e = (s, refl, e)

pub >>=-assoc {κ μ ν} :
    {R : Type κ} {S : Type μ} {T : Type ν} (first : Result R) (f : R → Result S) (g : S → Result T)
    → (first >>= f) >>= g ≡ (first >>= λ r. f r >>= g)
>>=-assoc panic f g = refl
>>=-assoc (err why) f g = refl
>>=-assoc (ok r) f g = refl

pub ok-injective {ℓ} : {A : Type ℓ} {a b : A} → ok a ≡ ok b → a ≡ b
ok-injective e = cc e

pub some-injective {ℓ} : {A : Type ℓ} {a b : A} → some a ≡ some b → a ≡ b
some-injective e = cc e

pub or_panic-ok {ℓ} : {A : Type ℓ} {a : A} (o : Option A) → or_panic o ≡ ok a → o ≡ some a
or_panic-ok none e = cc
or_panic-ok (some b) e = cc e
