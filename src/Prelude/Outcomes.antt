-- ===== src/Prelude/Outcomes.antt =====
-- What a function comes to that may throw, or that returns early with an error: its value, or the
-- error.
use mathlib.Core.Path.{◌≡◌, refl}
use mathlib.Core.Logic.{◌⊎◌, inl, inr}
use mathlib.Core.Bool.{Bool, true, false, not}
use vinuchain_lists.Prelude.Tests.{if◌then◌else◌}

pub data Outcome {ℓ κ} (E : Type κ) (A : Type ℓ) : Type (ℓ ⊔ κ) where
  ok : A → Outcome E A
  threw : E → Outcome E A

module _ {ℓ κ μ} {E : Type μ} {A : Type ℓ} {B : Type κ} where
  infixl 5 ◌>>=◌ ◌>>◌
  -- The next step runs on the value; an error is passed on.
  abbrev pub ◌>>=◌ : Outcome E A → (A → Outcome E B) → Outcome E B
  (threw error) >>= next = threw error
  (ok value) >>= next = next value

  abbrev pub ◌>>◌ : Outcome E A → Outcome E B → Outcome E B
  first >> second = first >>= (λ value. second)

  -- A chain that comes to a value has a first step that did.
  pub >>=-eq-ok :
      (first : Outcome E A) (next : A → Outcome E B) {result : B}
      → (first >>= next) ≡ ok result
      → (value : A) × (first ≡ ok value) × (next value ≡ ok result)
  >>=-eq-ok (threw error) next h = cc
  >>=-eq-ok (ok value) next h = (value, refl, h)

-- `if (!test) throw e;` was passed.
pub unless-eq-ok {ℓ μ} :
    {E : Type μ} {A : Type ℓ} (test : Bool) (e : E) (m : Outcome E A) {a : A}
    → (if not test then threw e else m) ≡ ok a
    → (test ≡ true) × (m ≡ ok a)
unless-eq-ok true e m h = (refl, h)
unless-eq-ok false e m h = cc

pub Outcome-cases {ℓ μ} :
    {E : Type μ} {A : Type ℓ} (m : Outcome E A) → ((a : A) × (m ≡ ok a)) ⊎ ((e : E) × (m ≡ threw e))
Outcome-cases (ok a) = inl (a, refl)
Outcome-cases (threw e) = inr (e, refl)

-- `if (!test) return { valid: false, error };` before the rest.
abbrev pub require {μ} : {E : Type μ} → Bool → E → Outcome E (Unit {0})
require true e = ok tt
require false e = threw e

pub require-eq-ok {ℓ μ} :
    {E : Type μ} {A : Type ℓ} (test : Bool) (e : E) (m : Outcome E A) {a : A}
    → (require test e >> m) ≡ ok a
    → (test ≡ true) × (m ≡ ok a)
require-eq-ok true e m h = (refl, h)
require-eq-ok false e m h = cc

pub require-eq-ok_last {μ} :
    {E : Type μ} (test : Bool) (e : E) {u : Unit {0}} → require test e ≡ ok u → test ≡ true
require-eq-ok_last true e h = refl
require-eq-ok_last false e h = cc
