-- ===== src/Shared/JsMap.antt =====
-- JavaScript's `Map` with string keys, as its entries in insertion order.
use mathlib.Core.Path.{◌≡◌, refl, ap}
use mathlib.Core.Bool.{Bool}
use mathlib.Core.Option.{Option, none, some}
use mathlib.Core.List.{List, [], ◌∷◌}
use Prim.Native.String.{String}
use native.Mathlib.Omega.{arith}
use text.Mathlib.Text.{◌==◌}
use text.Mathlib.TextEquality.{eq_iff}
use text.Mathlib.TextPositions.{eq_refl}
use mathlib.Core.Logic.{inl, inr}
use sync_resource.Shared.Tests.{if◌then◌else◌, is_some, Bool-cases}

abbrev pub JsMap {ℓ} : Type ℓ → Type ℓ
JsMap V = List (String × V)

module _ {ℓ} {V : Type ℓ} where
  unfoldable pub get : String → JsMap V → Option V
  get k [] = none
  get k ((j, v) ∷ m) = if j == k then some v else get k m

  -- `set` on a key that is there keeps its place; a new key goes to the end.
  unfoldable pub put : String → V → JsMap V → JsMap V
  put k v [] = (k, v) ∷ []
  put k v ((j, w) ∷ m) = if j == k then (j, v) ∷ m else (j, w) ∷ put k v m

  unfoldable pub delete : String → JsMap V → JsMap V
  delete k [] = []
  delete k ((j, w) ∷ m) = let rest = delete k m in if j == k then rest else (j, w) ∷ rest

  unfoldable pub values : JsMap V → List V
  values [] = []
  values ((j, v) ∷ m) = v ∷ values m

  abbrev pub has : String → JsMap V → Bool
  has k m = is_some (get k m)

  pub get-put :
      (k j : String) (v : V) (m : JsMap V)
      → get j (put k v m) ≡ (if k == j then some v else get j m)
  unfolding get put
  get-put k j v [] = refl
  get-put k j v ((i, w) ∷ m) = ground (arith, eq_iff k j, eq_iff i k, eq_iff i j, get-put k j v m)

  pub get-delete :
      (k j : String) (m : JsMap V) → get j (delete k m) ≡ (if k == j then none else get j m)
  unfolding get delete
  get-delete k j [] = ground arith
  get-delete k j ((i, w) ∷ m) = ground (arith, eq_iff k j, eq_iff i k, eq_iff i j, get-delete k j m)

module _ {ℓ} {V : Type ℓ} where
  pub delete-gone : (k : String) (m : JsMap V) → get k m ≡ none → delete k m ≡ m
  unfolding get delete
  delete-gone k [] e = refl
  delete-gone k ((j, w) ∷ m) e = elim (Bool-cases (j == k)) [
    | inl here ↦ cc (rw here at e)
    | inr past ↦ rw past (ap (◌∷◌ (j, w)) (delete-gone k m (rw past at e)))
  ]

  pub delete-put_new :
      (k : String) (v : V) (m : JsMap V) → get k m ≡ none → delete k (put k v m) ≡ m
  unfolding get put delete
  delete-put_new k v [] e = rw (eq_refl k) refl
  delete-put_new k v ((j, w) ∷ m) e = elim (Bool-cases (j == k)) [
    | inl here ↦ cc (rw here at e)
    | inr past ↦ rw (past, past) (ap (◌∷◌ (j, w)) (delete-put_new k v m (rw past at e)))
  ]

module _ {ℓ} {V : Type ℓ} where
  pub put-put : (k : String) (v w : V) (m : JsMap V) → put k w (put k v m) ≡ put k w m
  unfolding put
  put-put k v w [] = rw (eq_refl k) refl
  put-put k v w ((j, u) ∷ m) = elim (Bool-cases (j == k)) [
    | inl here ↦ rw (here, here) refl
    | inr past ↦ rw (past, past) (ap (◌∷◌ (j, u)) (put-put k v w m))
  ]

pub ruleset map_laws = (get-put, get-delete)
