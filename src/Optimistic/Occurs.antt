-- ===== src/Optimistic/Occurs.antt =====
-- How often an id stands in the arrays of the families, and what the edits of an array do to it.
use sync_resource.Shared.{
  ℕ, zero, suc, ◌+◌, ◌<◌, String, ◌≡◌, refl, Option, none, some, List, [], ◌∷◌, ◌++◌, arith, eq_iff,
  length, get_elem?, get_last?, drop_last, insert_at, remove_at, if◌then◌else◌, ◌==◌,
}
use sync_resource.Shared.JsMap.{JsMap}
use sync_resource.Optimistic.Types.{Family}
use sync_resource.Optimistic.Window.{index_of}

-- 1 where the two ids are one
abbrev pub hit : String → String → ℕ
hit id j = if id == j then 1 else 0

unfoldable pub occurs : String → List String → ℕ
occurs j [] = 0
occurs j (id ∷ ids) = hit id j + occurs j ids

unfoldable pub total : String → JsMap Family → ℕ
total j [] = 0
total j ((k, f) ∷ fs) = occurs j f.ids + total j fs

pub occurs-append :
    (j : String) (xs ys : List String) → occurs j (xs ++ ys) ≡ occurs j xs + occurs j ys
unfolding occurs
occurs-append j [] ys = omega arith
occurs-append j (x ∷ xs) ys = omega (arith, occurs-append j xs ys)

pub occurs-insert_at :
    (j id : String) (i : ℕ) (ids : List String)
    → occurs j (insert_at i id ids) ≡ hit id j + occurs j ids
unfolding occurs
occurs-insert_at j id zero ids = refl
occurs-insert_at j id (suc i) [] = refl
occurs-insert_at j id (suc i) (x ∷ xs) = omega (arith, occurs-insert_at j id i xs)

-- what `release` is given when the entry at an index goes
abbrev pub hit_of : Option String → String → ℕ
hit_of none j = 0
hit_of (some id) j = hit id j

pub occurs-remove_at :
    (j : String) (i : ℕ) (ids : List String)
    → occurs j ids ≡ hit_of (get_elem? ids i) j + occurs j (remove_at i ids)
unfolding occurs
occurs-remove_at j zero [] = refl
occurs-remove_at j (suc i) [] = refl
occurs-remove_at j zero (x ∷ xs) = refl
occurs-remove_at j (suc i) (x ∷ xs) = omega (arith, occurs-remove_at j i xs)

pub occurs-drop_last :
    (j : String) (ids : List String)
    → occurs j ids ≡ hit_of (get_last? ids) j + occurs j (drop_last ids)
unfolding occurs
occurs-drop_last j [] = refl
occurs-drop_last j (x ∷ []) = omega arith
occurs-drop_last j (x ∷ y ∷ ys) = omega (arith, occurs-drop_last j (y ∷ ys))

-- The index that `indexOf` finds holds the id.
pub get_elem?-index_of :
    (id : String) (ids : List String) (i : ℕ) → index_of id ids ≡ some i → get_elem? ids i ≡ some id
unfolding index_of
get_elem?-index_of id [] i e = cc
get_elem?-index_of id (j ∷ ids) zero e = ground (arith, eq_iff j id)
get_elem?-index_of id (j ∷ ids) (suc i) e = ground (arith, eq_iff j id, get_elem?-index_of id ids i)

pub index_of-lt-length :
    (id : String) (ids : List String) (i : ℕ) → index_of id ids ≡ some i → i < length ids
unfolding index_of
index_of-lt-length id [] i e = cc
index_of-lt-length id (j ∷ ids) zero e = omega arith
index_of-lt-length id (j ∷ ids) (suc i) e = ground (arith, index_of-lt-length id ids i)
