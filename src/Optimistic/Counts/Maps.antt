-- ===== src/Optimistic/Counts/Maps.antt =====
-- How many places of a map of families hold an id, under the operations of the map.
use sync_resource.Shared.{
  ℕ, ◌+◌, ◌≤◌, String, ◌≡◌, refl, Option, none, some, [], ◌∷◌, arith, eq_iff, inl, inr, Bool-cases,
  ◌==◌,
}
use sync_resource.Shared.JsMap.{JsMap, get, put, delete, get-put, get-delete}
use sync_resource.Js.{Value}
use sync_resource.Optimistic.Types.{Family, Tables, Host, Reconcile}
use sync_resource.Optimistic.Refs.{for_families}
use sync_resource.Optimistic.Families.{evict}
use sync_resource.Optimistic.Pages.{change_at, refresh_family, refresh_loaded_items}
use sync_resource.Optimistic.Occurs.{occurs, total}

-- A map holds each of its keys once.
abbrev pub UniqueKeys : JsMap Family → Type 0
UniqueKeys [] = Unit {0}
UniqueKeys ((k, f) ∷ fs) = (get k fs ≡ none) × UniqueKeys fs

-- How often the family under a key holds an id.
abbrev pub held_by : String → Option Family → ℕ
held_by j none = 0
held_by j (some f) = occurs j f.ids

pub total-put :
    (j k : String) (f : Family) (m : JsMap Family)
    → total j (put k f m) + held_by j (get k m) ≡ total j m + occurs j f.ids
unfolding total put get
total-put j k f [] = omega arith
total-put j k f ((i, g) ∷ m) = elim (Bool-cases (i == k)) [
  | inl e ↦ rw e (omega arith)
  | inr e ↦ rw e (omega (arith, total-put j k f m))
]

delete_absent : (k : String) (m : JsMap Family) → get k m ≡ none → delete k m ≡ m
unfolding delete get
delete_absent k [] h = refl
delete_absent k ((i, g) ∷ m) h = ground (arith, delete_absent k m)

pub total-delete :
    (j k : String) (m : JsMap Family)
    → UniqueKeys m
    → total j (delete k m) + held_by j (get k m) ≡ total j m
unfolding total delete get
total-delete j k [] u = omega arith
total-delete j k ((i, g) ∷ m) u = elim (Bool-cases (i == k)) [
  | inl e ↦
      let same : i ≡ k = (eq_iff i k).0 e in
      rw (e, delete_absent k m (rw same at u.0)) (omega arith)
  | inr e ↦ rw e (omega (arith, total-delete j k m u.1))
]

pub total-change_at :
    (j k : String) (g : Family → Family) (m : JsMap Family) (f : Family)
    → get k m ≡ some f
    → total j (change_at k g m) + occurs j f.ids ≡ total j m + occurs j (g f).ids
unfolding total change_at get
total-change_at j k g [] f h = cc
total-change_at j k g ((i, h) ∷ m) f e = elim (Bool-cases (i == k)) [
  | inl q ↦
      let found : Path (Option Family) (some h) (some f) = rw (q, get) at e in
      let same : h ≡ f = cc found in rw (q, same) (omega arith)
  | inr q ↦ rw q (omega (arith, total-change_at j k g m f (rw (q, get) at e)))
]

pub get-change_at :
    (i k : String) (g : Family → Family) (m : JsMap Family)
    → get i m ≡ none
    → get i (change_at k g m) ≡ none
unfolding change_at get
get-change_at i k g [] h = refl
get-change_at i k g ((l, f) ∷ m) h = ground (arith, get-change_at i k g m)

pub change_at-UniqueKeys :
    (k : String) (g : Family → Family) (m : JsMap Family)
    → UniqueKeys m
    → UniqueKeys (change_at k g m)
unfolding change_at
change_at-UniqueKeys k g [] u = tt
change_at-UniqueKeys k g ((l, f) ∷ m) u =
    ground (arith, change_at-UniqueKeys k g m u.1, get-change_at l k g m u.0)

pub put-UniqueKeys :
    (k : String) (f : Family) (m : JsMap Family) → UniqueKeys m → UniqueKeys (put k f m)
unfolding put get
put-UniqueKeys k f [] u = (refl, tt)
put-UniqueKeys k f ((l, g) ∷ m) u =
    ground (arith, put-UniqueKeys k f m u.1, get-put k l f m, eq_iff l k, eq_iff k l)

pub delete-UniqueKeys : (k : String) (m : JsMap Family) → UniqueKeys m → UniqueKeys (delete k m)
unfolding delete
delete-UniqueKeys k [] u = tt
delete-UniqueKeys k ((l, g) ∷ m) u = ground (arith, delete-UniqueKeys k m u.1, get-delete k l m)

get-for_families :
    (i : String) (body : Family → Tables → Family × Tables) (m : JsMap Family) (t : Tables)
    → get i m ≡ none
    → get i (for_families body m t).0 ≡ none
unfolding for_families get
get-for_families i body [] t h = refl
get-for_families i body ((l, f) ∷ m) t h = ground (arith, get-for_families i body m (body f t).1)

pub for_families-UniqueKeys :
    (body : Family → Tables → Family × Tables) (m : JsMap Family) (t : Tables)
    → UniqueKeys m
    → UniqueKeys (for_families body m t).0
unfolding for_families
for_families-UniqueKeys body [] t u = tt
for_families-UniqueKeys body ((l, f) ∷ m) t u =
    (get-for_families l body m (body f t).1 u.0, for_families-UniqueKeys body m (body f t).1 u.1)

get-refresh :
    (i : String) (host : Host) (reconcile : Reconcile) (base : JsMap Value) (m : JsMap Family)
    → get i m ≡ none
    → get i (refresh_loaded_items host reconcile base m) ≡ none
unfolding refresh_loaded_items get
get-refresh i host reconcile base [] h = refl
get-refresh i host reconcile base ((l, f) ∷ m) h =
    ground (arith, get-refresh i host reconcile base m)

pub refresh-UniqueKeys :
    (host : Host) (reconcile : Reconcile) (base : JsMap Value) (m : JsMap Family)
    → UniqueKeys m
    → UniqueKeys (refresh_loaded_items host reconcile base m)
unfolding refresh_loaded_items
refresh-UniqueKeys host reconcile base [] u = tt
refresh-UniqueKeys host reconcile base ((l, f) ∷ m) u =
    (get-refresh l host reconcile base m u.0, refresh-UniqueKeys host reconcile base m u.1)

pub ids-refresh_family :
    (host : Host) (reconcile : Reconcile) (base : JsMap Value) (f : Family)
    → (refresh_family host reconcile base f).ids ≡ f.ids
unfolding refresh_family
ids-refresh_family host reconcile base f = ground arith

pub total-refresh :
    (j : String) (host : Host) (reconcile : Reconcile) (base : JsMap Value) (m : JsMap Family)
    → total j (refresh_loaded_items host reconcile base m) ≡ total j m
unfolding refresh_loaded_items total
total-refresh j host reconcile base [] = refl
total-refresh j host reconcile base ((l, f) ∷ m) =
    rw ids-refresh_family (omega (arith, total-refresh j host reconcile base m))

get-evict :
    (i : String) (active : Option String) (m : JsMap Family) (t : Tables)
    → get i m ≡ none
    → get i (evict active m t).0 ≡ none
unfolding evict get
get-evict i active [] t h = refl
get-evict i active ((l, f) ∷ m) t h = ground (arith, get-evict i active m t)

pub evict-UniqueKeys :
    (active : Option String) (m : JsMap Family) (t : Tables)
    → UniqueKeys m
    → UniqueKeys (evict active m t).0
unfolding evict
evict-UniqueKeys active [] t u = tt
evict-UniqueKeys active ((l, f) ∷ m) t u =
    ground (arith, evict-UniqueKeys active m t u.1, get-evict l active m t u.0)

-- A write that keeps each family's places keeps the total.
pub total-change_same :
    (j k : String) (g : Family → Family) (m : JsMap Family)
    → ((f : Family) → (g f).ids ≡ f.ids)
    → total j (change_at k g m) ≡ total j m
unfolding total change_at
total-change_same j k g [] same = refl
total-change_same j k g ((i, f) ∷ m) same = elim (Bool-cases (i == k)) [
  | inl e ↦ rw (e, same) refl
  | inr e ↦ rw e (omega (arith, total-change_same j k g m same))
]

pub occurs-le-total :
    (j k : String) (m : JsMap Family) (f : Family) → get k m ≡ some f → occurs j f.ids ≤ total j m
unfolding occurs
occurs-le-total j k m f e = omega (arith, total-change_at j k (λ g. record g { ids = [] }) m f e)
