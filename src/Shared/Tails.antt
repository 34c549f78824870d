-- ===== src/Shared/Tails.antt =====
-- The tails of arrays, and reads at and past their ends.
use Prim.Native.Nat.{ℕ, zero, suc, ◌+◌, ◌≤◌, ◌<◌}
use mathlib.Core.Path.{◌≡◌, refl, sym, ap, ◌∙◌}
use mathlib.Core.List.{List, [], ◌∷◌, ◌++◌}
use mathlib.Core.Option.{none, some}
use native.Mathlib.Omega.{arith}
use sync_resource.Shared.Lists.{length, get_elem?, take, drop}

pub take-nil {ℓ} : {A : Type ℓ} (n : ℕ) → take {A = A} n [] ≡ []
take-nil zero = refl
take-nil (suc n) = refl

pub drop-nil {ℓ} : {A : Type ℓ} (n : ℕ) → drop {A = A} n [] ≡ []
drop-nil zero = refl
drop-nil (suc n) = refl

module _ {ℓ} {A : Type ℓ} where
  pub get_elem?-below : (xs : List A) (i : ℕ) (x : A) → get_elem? xs i ≡ some x → i < length xs
  get_elem?-below [] i x h = cc
  get_elem?-below (y ∷ xs) zero x h = omega arith
  get_elem?-below (y ∷ xs) (suc i) x h = omega (arith, get_elem?-below xs i x h)

  pub get_elem?-past : (xs : List A) (i : ℕ) → length xs ≤ i → get_elem? xs i ≡ none
  get_elem?-past [] i h = refl
  get_elem?-past (x ∷ xs) zero h = absurd (omega arith)
  get_elem?-past (x ∷ xs) (suc i) h = get_elem?-past xs i (omega arith)

  pub past_of_get_elem? : (xs : List A) (i : ℕ) → get_elem? xs i ≡ none → length xs ≤ i
  past_of_get_elem? [] i h = omega arith
  past_of_get_elem? (x ∷ xs) zero h = cc
  past_of_get_elem? (x ∷ xs) (suc i) h = omega (arith, past_of_get_elem? xs i h)

  pub drop-step :
      (xs : List A) (i : ℕ) (x : A) → get_elem? xs i ≡ some x → drop i xs ≡ x ∷ drop (suc i) xs
  drop-step [] i x e = cc
  drop-step (y ∷ xs) zero x e = cc
  drop-step (y ∷ xs) (suc i) x e = drop-step xs i x e

  pub drop-snoc :
      (xs : List A) (i : ℕ) (x : A) → i ≤ length xs → drop i (xs ++ x ∷ []) ≡ drop i xs ++ x ∷ []
  drop-snoc xs zero x h = refl
  drop-snoc [] (suc i) x h = absurd (omega arith)
  drop-snoc (y ∷ xs) (suc i) x h = drop-snoc xs i x (omega arith)

  pub drop-past : (xs : List A) (i : ℕ) → length xs ≤ i → drop i xs ≡ []
  drop-past [] i h = drop-nil i
  drop-past (x ∷ xs) zero h = absurd (omega arith)
  drop-past (x ∷ xs) (suc i) h = drop-past xs i (omega arith)

  pub drop-add : (xs : List A) (a b : ℕ) → drop (a + b) xs ≡ drop b (drop a xs)
  drop-add xs zero b = ap (λ (n : ℕ). drop n xs) (omega arith)
  drop-add [] (suc a) b = drop-nil (suc a + b) ∙ sym (drop-nil b)
  drop-add (x ∷ xs) (suc a) b =
      let step : suc a + b ≡ suc (a + b) = omega arith in
      ap (λ (n : ℕ). drop n (x ∷ xs)) step ∙ drop-add xs a b

  pub drop-get :
      (xs : List A) (i : ℕ)
      → i < length xs
      → (x : A) × (get_elem? xs i ≡ some x) × (drop i xs ≡ x ∷ drop (i + 1) xs)
  drop-get [] i h = absurd (omega arith)
  drop-get (x ∷ xs) zero h = (x, refl, refl)
  drop-get (x ∷ xs) (suc i) h =
      let (y, found, split) = drop-get xs i (omega arith) in
      let step : suc i + 1 ≡ suc (i + 1) = omega arith in
      (y, found, split ∙ ap (λ (n : ℕ). y ∷ drop n (x ∷ xs)) (sym step))
