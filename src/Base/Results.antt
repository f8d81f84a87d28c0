-- ===== src/Base/Results.antt =====
-- What holds of the result of a call, where there is one.
use can_monitor.Base.Run.{Outcome, done, fault, ◌>>=◌, >>=-eq-done, done-injective}
use can_monitor.Base.Tests.{if◌then◌else◌}
use mathlib.Core.Bool.{Bool, true, false}
use mathlib.Core.Path.{◌≡◌, refl, subst, ap, ◌∙◌}

-- The result, if the call returns one, has the property.
pub record Safe {ℓ} {A : Type ℓ} (P : A → Type 0) (o : Outcome A) : Type ℓ where
  pub holds : (a : A) → o ≡ done a → P a

module _ {ℓ} {A : Type ℓ} {P : A → Type 0} where
  pub Safe-done : {a : A} → P a → Safe P (done a)
  Safe-done p = record { holds = λ b e. subst P (done-injective e) p }

  pub Safe-fault : Safe P fault
  Safe-fault = record { holds = λ b e. cc }

  module _ {κ} {B : Type κ} {Q : B → Type 0} where
    pub Safe-bind :
        (o : Outcome A) (k : A → Outcome B)
        → Safe P o
        → ((a : A) → P a → Safe Q (k a))
        → Safe Q (o >>= k)
    Safe-bind o k s h = record {
      holds = λ b e. let (a, e₁, e₂) = >>=-eq-done o k e in (h a (s.holds a e₁)).holds b e₂;
    }

module _ {ℓ κ} {A : Type ℓ} {B : Type κ} {Q : B → Type 0} where
  -- Whatever the first call returns.
  pub Safe-any : (o : Outcome A) (k : A → Outcome B) → ((a : A) → Safe Q (k a)) → Safe Q (o >>= k)
  Safe-any o k h = record { holds = λ b e. let (a, e₁, e₂) = >>=-eq-done o k e in (h a).holds b e₂ }

module _ {ℓ} {A : Type ℓ} {P : A → Type 0} where
  -- Either branch, with what its test says.
  pub Safe-if :
      (b : Bool) {x y : Outcome A}
      → (b ≡ true → Safe P x)
      → (b ≡ false → Safe P y)
      → Safe P (if b then x else y)
  Safe-if true h h' = h refl
  Safe-if false h h' = h' refl

  pub Safe-weaken : {Q : A → Type 0} (o : Outcome A) → Safe P o → ((a : A) → P a → Q a) → Safe Q o
  Safe-weaken o s h = record { holds = λ a e. h a (s.holds a e) }

-- The call returns a result.
abbrev pub Gives {ℓ} : {A : Type ℓ} → Outcome A → Type ℓ
Gives {A = A} o = (a : A) × (o ≡ done a)

pub >>=-Gives {ℓ κ} :
    {A : Type ℓ} {B : Type κ} (o : Outcome A) (k : A → Outcome B)
    → Gives o
    → ((a : A) → Gives (k a))
    → Gives (o >>= k)
>>=-Gives o k (a, e) h = let (b, e') = h a in (b, ap (λ p. p >>= k) e ∙ e')
