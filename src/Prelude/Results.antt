-- ===== src/Prelude/Results.antt =====
-- `std::result::Result`, with `?` as bind.
use mathlib.Core.Path.{◌≡◌, refl}
use mathlib.Core.Bool.{Bool, true, false, not}

pub data Result {ℓ κ} (E : Type ℓ) (A : Type κ) : Type (ℓ ⊔ κ) where
  ok : A → Result E A
  err : E → Result E A

-- `if condition { return Err(error) }`.
abbrev pub reject_if {ℓ} : {E : Type ℓ} → Bool → E → Result E (Unit {0})
reject_if true e = err e
reject_if false e = ok tt

abbrev pub is_ok {ℓ κ} : {E : Type ℓ} {A : Type κ} → Result E A → Bool
is_ok (ok a) = true
is_ok (err e) = false

infixl 5 ◌>>=◌ ◌>>◌
abbrev pub ◌>>=◌ {ℓ κ μ} :
    {E : Type ℓ} {A : Type κ} {B : Type μ} → Result E A → (A → Result E B) → Result E B
err failure >>= next = err failure
ok value >>= next = next value

abbrev pub ◌>>◌ {ℓ κ} : {E : Type ℓ} {B : Type κ} → Result E (Unit {0}) → Result E B → Result E B
first >> next = first >>= λ _. next

-- A chain of checks that succeeds, one check at a time.
pub reject_then {ℓ κ} :
    {E : Type ℓ} {A : Type κ} (b : Bool) (k : E) (r : Result E A) (a : A)
    → (reject_if b k >> r) ≡ ok a
    → (b ≡ false) × (r ≡ ok a)
reject_then true k r a h = cc
reject_then false k r a h = (refl, h)

pub and_then {ℓ κ} :
    {E : Type ℓ} {A : Type κ} (q : Result E (Unit {0})) (r : Result E A) (a : A)
    → (q >> r) ≡ ok a
    → (q ≡ ok tt) × (r ≡ ok a)
and_then (ok _) r a h = (refl, h)
and_then (err k) r a h = cc

pub reject_ok {ℓ} : {E : Type ℓ} (b : Bool) (k : E) → reject_if b k ≡ ok tt → b ≡ false
reject_ok true k h = cc
reject_ok false k h = refl

pub not-false : (b : Bool) → not b ≡ false → b ≡ true
not-false true h = refl
not-false false h = cc
