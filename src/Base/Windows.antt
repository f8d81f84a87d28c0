-- ===== src/Base/Windows.antt =====
-- Windows of a list: reading at an index, and writing before or behind one.
use can_monitor.Base.Lists.{length, get_elem?, set, take, drop}
use Prim.Native.Nat.{ℕ, zero, suc, ◌≤◌, ◌<◌}
use mathlib.Core.List.{List, [], ◌∷◌, ◌++◌}
use mathlib.Core.Option.{some}
use mathlib.Core.Path.{◌≡◌, refl, ap}
use native.Mathlib.Omega.{arith}

module _ {ℓ} {A : Type ℓ} where
  pub get_elem?-drop :
      (i : ℕ) (xs : List A)
      → i < length xs
      → (x : A) × (get_elem? xs i ≡ some x) × (drop i xs ≡ x ∷ drop (suc i) xs)
  get_elem?-drop i [] h = absurd (omega arith)
  get_elem?-drop zero (x ∷ xs) h = (x, refl, refl)
  get_elem?-drop (suc i) (x ∷ xs) h = get_elem?-drop i xs (omega arith)

  pub take-set :
      (k : ℕ) (xs : List A) (x : A)
      → k < length xs
      → take (suc k) (set xs k x) ≡ take k xs ++ x ∷ []
  take-set k [] x h = absurd (omega arith)
  take-set zero (y ∷ xs) x h = refl
  take-set (suc k) (y ∷ xs) x h = ap (λ r. y ∷ r) (take-set k xs x (omega arith))

  pub drop-set : (m k : ℕ) (xs : List A) (x : A) → k < m → drop m (set xs k x) ≡ drop m xs
  drop-set zero k xs x h = absurd (omega arith)
  drop-set (suc m) k [] x h = refl
  drop-set (suc m) zero (y ∷ xs) x h = refl
  drop-set (suc m) (suc k) (y ∷ xs) x h = drop-set m k xs x (omega arith)

  pub take-append : (n : ℕ) (xs ys : List A) → n ≡ length xs → take n (xs ++ ys) ≡ xs
  take-append zero [] ys h = refl
  take-append zero (x ∷ xs) ys h = absurd (omega arith)
  take-append (suc n) [] ys h = absurd (omega arith)
  take-append (suc n) (x ∷ xs) ys h = ap (λ r. x ∷ r) (take-append n xs ys (omega arith))

  pub take-take : (k n : ℕ) (xs : List A) → k ≤ n → take k (take n xs) ≡ take k xs
  take-take zero n xs h = refl
  take-take (suc k) zero xs h = absurd (omega arith)
  take-take (suc k) (suc n) [] h = refl
  take-take (suc k) (suc n) (x ∷ xs) h = ap (λ r. x ∷ r) (take-take k n xs (omega arith))
