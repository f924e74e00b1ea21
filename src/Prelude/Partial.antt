-- ===== src/Prelude/Partial.antt =====
-- Chains of steps that may fail: a failed `assert`, or a loop that has used up its rounds, is `none`.
use mathlib.Core.Bool.{Bool, true, false}
use mathlib.Core.Option.{Option, none, some}
use mathlib.Core.Path.{◌≡◌, refl}
use nku_os.Prelude.Tests.{if◌then◌else◌}

infixl 5 ◌>>=◌ ◌>>◌
abbrev pub ◌>>=◌ {ℓ κ} : {A : Type ℓ} {B : Type κ} → Option A → (A → Option B) → Option B
none >>= f = none
some a >>= f = f a

abbrev pub ◌>>◌ {ℓ} : {B : Type ℓ} → Option (Unit {0}) → Option B → Option B
m >> k = m >>= λ _. k

abbrev pub assert : Bool → Option (Unit {0})
assert true = some tt
assert false = none

-- An assertion that holds does nothing.
pub assert-true {ℓ} : {B : Type ℓ} (b : Bool) (k : Option B) → b ≡ true → (assert b >> k) ≡ k
assert-true b k h = rw h refl

-- The continuation after a test, in each of its two cases.
pub if_true {ℓ} : {B : Type ℓ} (b : Bool) (x y : B) → b ≡ true → (if b then x else y) ≡ x
if_true b x y h = rw h refl

pub if_false {ℓ} : {B : Type ℓ} (b : Bool) (x y : B) → b ≡ false → (if b then x else y) ≡ y
if_false b x y h = rw h refl
