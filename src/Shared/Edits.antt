-- ===== src/Shared/Edits.antt =====
-- Reads after the edits of an array.
use Prim.Native.Nat.{ℕ, zero, suc, ◌≤◌, ◌<◌}
use mathlib.Core.Path.{◌≡◌, refl, ap}
use mathlib.Core.Logic.{◌≢◌}
use mathlib.Core.List.{List, [], ◌∷◌, ◌++◌}
use mathlib.Core.Option.{some}
use native.Mathlib.Omega.{arith}
use sync_resource.Shared.Lists.{
  length, get_elem?, get_or, set, take, insert_at, remove_at, drop_last,
}

module _ {ℓ} {A : Type ℓ} (d : A) where
  pub get_or-insert_at_lt :
      (xs : List A) (k i : ℕ) (x : A)
      → i < k
      → k ≤ length xs
      → get_or (insert_at k x xs) i d ≡ get_or xs i d
  get_or-insert_at_lt xs zero i x h b = elim h [ ]
  get_or-insert_at_lt [] (suc k) i x h b = absurd (omega arith)
  get_or-insert_at_lt (y ∷ ys) (suc k) zero x h b = refl
  get_or-insert_at_lt (y ∷ ys) (suc k) (suc i) x h b =
      get_or-insert_at_lt ys k i x (omega arith) (omega arith)

  pub get_or-insert_at_self :
      (xs : List A) (k : ℕ) (x : A) → k ≤ length xs → get_or (insert_at k x xs) k d ≡ x
  get_or-insert_at_self xs zero x b = refl
  get_or-insert_at_self [] (suc k) x b = absurd (omega arith)
  get_or-insert_at_self (y ∷ ys) (suc k) x b = get_or-insert_at_self ys k x (omega arith)

  pub get_or-insert_at_gt :
      (xs : List A) (k i : ℕ) (x : A)
      → k ≤ i
      → k ≤ length xs
      → get_or (insert_at k x xs) (suc i) d ≡ get_or xs i d
  get_or-insert_at_gt xs zero i x h b = refl
  get_or-insert_at_gt [] (suc k) i x h b = absurd (omega arith)
  get_or-insert_at_gt (y ∷ ys) (suc k) zero x h b = absurd (omega arith)
  get_or-insert_at_gt (y ∷ ys) (suc k) (suc i) x h b =
      get_or-insert_at_gt ys k i x (omega arith) (omega arith)

  pub get_or-remove_at_lt :
      (xs : List A) (k i : ℕ) → i < k → get_or (remove_at k xs) i d ≡ get_or xs i d
  get_or-remove_at_lt [] k i h = refl
  get_or-remove_at_lt (y ∷ ys) zero i h = elim h [ ]
  get_or-remove_at_lt (y ∷ ys) (suc k) zero h = refl
  get_or-remove_at_lt (y ∷ ys) (suc k) (suc i) h = get_or-remove_at_lt ys k i (omega arith)

  pub get_or-remove_at_ge :
      (xs : List A) (k i : ℕ) → k ≤ i → get_or (remove_at k xs) i d ≡ get_or xs (suc i) d
  get_or-remove_at_ge [] k i h = refl
  get_or-remove_at_ge (y ∷ ys) zero i h = refl
  get_or-remove_at_ge (y ∷ ys) (suc k) zero h = absurd (omega arith)
  get_or-remove_at_ge (y ∷ ys) (suc k) (suc i) h = get_or-remove_at_ge ys k i (omega arith)

  pub get_or-drop_last :
      (xs : List A) (i : ℕ) → suc i < length xs → get_or (drop_last xs) i d ≡ get_or xs i d
  get_or-drop_last [] i h = absurd (omega arith)
  get_or-drop_last (x ∷ []) i h = absurd (omega arith)
  get_or-drop_last (x ∷ y ∷ ys) zero h = refl
  get_or-drop_last (x ∷ y ∷ ys) (suc i) h = get_or-drop_last (y ∷ ys) i (omega arith)

  pub get_or-set_self : (xs : List A) (i : ℕ) (v : A) → i < length xs → get_or (set xs i v) i d ≡ v
  get_or-set_self [] i v h = elim h [ ]
  get_or-set_self (x ∷ xs) zero v h = refl
  get_or-set_self (x ∷ xs) (suc i) v h = get_or-set_self xs i v (omega arith)

  pub get_or-set_ne :
      (xs : List A) (i j : ℕ) (v : A) → i ≢ j → get_or (set xs i v) j d ≡ get_or xs j d
  get_or-set_ne [] i j v h = refl
  get_or-set_ne (x ∷ xs) zero zero v h = absurd (h refl)
  get_or-set_ne (x ∷ xs) zero (suc j) v h = refl
  get_or-set_ne (x ∷ xs) (suc i) zero v h = refl
  get_or-set_ne (x ∷ xs) (suc i) (suc j) v h = get_or-set_ne xs i j v (omega arith)

module _ {ℓ} {A : Type ℓ} where
  pub remove_at-set : (xs : List A) (i : ℕ) (v : A) → remove_at i (set xs i v) ≡ remove_at i xs
  remove_at-set [] i v = refl
  remove_at-set (x ∷ xs) zero v = refl
  remove_at-set (x ∷ xs) (suc i) v = ap (◌∷◌ x) (remove_at-set xs i v)

  pub get_elem?-lt :
      (d : A) (xs : List A) (i : ℕ) → i < length xs → get_elem? xs i ≡ some (get_or xs i d)
  get_elem?-lt d [] i h = absurd (omega arith)
  get_elem?-lt d (x ∷ xs) zero h = refl
  get_elem?-lt d (x ∷ xs) (suc i) h = get_elem?-lt d xs i (omega arith)

  -- A read below the range that `replaceRange` replaces.
  pub get_or-take_append :
      (d : A) (n i : ℕ) (xs ys : List A)
      → i < n
      → i < length xs
      → get_or (take n xs ++ ys) i d ≡ get_or xs i d
  get_or-take_append d zero i xs ys h b = absurd (omega arith)
  get_or-take_append d (suc n) i [] ys h b = absurd (omega arith)
  get_or-take_append d (suc n) zero (x ∷ xs) ys h b = refl
  get_or-take_append d (suc n) (suc i) (x ∷ xs) ys h b =
      get_or-take_append d n i xs ys (omega arith) (omega arith)
