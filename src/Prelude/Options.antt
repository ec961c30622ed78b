-- ===== src/Prelude/Options.antt =====
-- Optional results in `do` blocks: an early return of nothing.
use mathlib.Core.Bool.{Bool, true, false}
use mathlib.Core.Path.{◌≡◌, refl}
use mathlib.Core.Option.{Option, none, some}

infixl 5 ◌>>=◌ ◌>>◌
abbrev pub ◌>>=◌ {ℓ κ} : {A : Type ℓ} {B : Type κ} → Option A → (A → Option B) → Option B
none >>= f = none
some a >>= f = f a

abbrev pub ◌>>◌ {κ} : {B : Type κ} → Option (Unit {0}) → Option B → Option B
none >> k = none
some u >> k = k

-- `if not …: return None`
abbrev pub require : Bool → Option (Unit {0})
require true = some tt
require false = none

-- A chain that gives a result has gone through each of its steps.
pub bind_some {ℓ κ} :
    {A : Type ℓ} {B : Type κ} (o : Option A) (f : A → Option B) (b : B)
    → (o >>= f) ≡ some b
    → (a : A) × (o ≡ some a) × (f a ≡ some b)
bind_some none f b h = absurd (cc h)
bind_some (some a) f b h = (a, refl, h)

pub passed_check {κ} :
    {B : Type κ} (t : Bool) (k : Option B) (b : B)
    → (require t >> k) ≡ some b
    → (t ≡ true) × (k ≡ some b)
passed_check true k b h = (refl, h)
passed_check false k b h = absurd (cc h)

pub then_some {κ} :
    {B : Type κ} (o : Option (Unit {0})) (k : Option B) (b : B) → (o >> k) ≡ some b → k ≡ some b
then_some none k b h = absurd (cc h)
then_some (some u) k b h = h
