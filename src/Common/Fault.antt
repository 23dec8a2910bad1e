-- ===== src/Common/Fault.antt =====
-- Code that may fault: `none` is a failed assert, an access outside an array, or an end of a
-- function that has to return a value and does not.
use mathlib.Core.Path.{◌≡◌, refl}
use mathlib.Core.Bool.{Bool, true, false}
use mathlib.Core.Option.{Option, none, some}
use codechiev.Common.Tests.{if◌then◌else◌}

infixl 5 ◌>>=◌ ◌>>◌
abbrev pub ◌>>=◌ {ℓ κ} : {A : Type ℓ} {B : Type κ} → Option A → (A → Option B) → Option B
none >>= f = none
some a >>= f = f a

abbrev pub ◌>>◌ {ℓ} : {B : Type ℓ} → Option (Unit {0}) → Option B → Option B
m >> k = m >>= λ _. k

abbrev pub guard : Bool → Option (Unit {0})
guard true = some tt
guard false = none

pub >>=-eq-some {ℓ κ} :
    {A : Type ℓ} {B : Type κ} (m : Option A) (f : A → Option B) {b : B}
    → (m >>= f) ≡ some b
    → (a : A) × (m ≡ some a) × (f a ≡ some b)
>>=-eq-some none f h = cc
>>=-eq-some (some a) f h = (a, refl, h)

pub some-injective {ℓ} : {A : Type ℓ} {a b : A} → some a ≡ some b → a ≡ b
some-injective e = cc

-- A result of a conditional is one of its branches'.
pub if-eq-some {ℓ κ} :
    {A : Type ℓ} {G : Type κ} (b : Bool) (m n : Option A) {a : A}
    → (if b then m else n) ≡ some a
    → (m ≡ some a → G)
    → (n ≡ some a → G)
    → G
if-eq-some true m n h f g = f h
if-eq-some false m n h f g = g h
