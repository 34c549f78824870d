-- ===== src/Optimistic/Every/Maps.antt =====
-- A predicate of all families of client/optimistic.ts, and the maps that hold them.
use sync_resource.Shared.{
  String, ◌≡◌, refl, Option, some, [], ◌∷◌, arith, inl, inr, Bool-cases, ◌==◌,
}
use sync_resource.Shared.JsMap.{JsMap, get, put, delete}
use sync_resource.Js.{Value}
use sync_resource.Optimistic.Types.{Family, Tables, Host, Reconcile}
use sync_resource.Optimistic.Refs.{for_families}
use sync_resource.Optimistic.Families.{evict}
use sync_resource.Optimistic.Pages.{change_at, refresh_family, refresh_loaded_items}

-- Every family has the property.
abbrev pub Every : (Family → Type 0) → JsMap Family → Type 0
Every P [] = Unit {0}
Every P ((k, f) ∷ fs) = P f × Every P fs

-- A body keeps the property of its family.
abbrev pub Keeps : (Family → Type 0) → (Family → Tables → Family × Tables) → Type 0
Keeps P body = (f : Family) (t : Tables) → P f → P (body f t).0

pub get-Every :
    (P : Family → Type 0) (k : String) (m : JsMap Family) (f : Family)
    → Every P m
    → get k m ≡ some f
    → P f
unfolding get
get-Every P k [] f h e = cc
get-Every P k ((i, g) ∷ m) f h e = ground (arith, get-Every P k m f h.1)

pub put-Every :
    (P : Family → Type 0) (k : String) (f : Family) (m : JsMap Family)
    → P f
    → Every P m
    → Every P (put k f m)
unfolding put
put-Every P k f [] o h = (o, tt)
put-Every P k f ((i, g) ∷ m) o h = ground (arith, put-Every P k f m o h.1)

pub delete-Every :
    (P : Family → Type 0) (k : String) (m : JsMap Family) → Every P m → Every P (delete k m)
unfolding delete
delete-Every P k [] h = tt
delete-Every P k ((i, g) ∷ m) h = ground (arith, delete-Every P k m h.1)

pub change_at-Every :
    (P : Family → Type 0) (k : String) (g : Family → Family) (m : JsMap Family)
    → ((f : Family) → get k m ≡ some f → P (g f))
    → Every P m
    → Every P (change_at k g m)
unfolding change_at get
change_at-Every P k g [] o h = tt
change_at-Every P k g ((i, f) ∷ m) o h = elim (Bool-cases (i == k)) [
  | inl e ↦ rw e (o f (rw (e, get) refl), h.1)
  | inr e ↦ rw e (h.0, change_at-Every P k g m (λ f' e'. o f' (rw (e, get) e')) h.1)
]

pub refresh-Every :
    (P : Family → Type 0) (host : Host) (reconcile : Reconcile) (base : JsMap Value)
    (m : JsMap Family)
    → ((f : Family) → P f → P (refresh_family host reconcile base f))
    → Every P m
    → Every P (refresh_loaded_items host reconcile base m)
unfolding refresh_loaded_items
refresh-Every P host reconcile base [] keeps h = tt
refresh-Every P host reconcile base ((i, f) ∷ m) keeps h =
    (keeps f h.0, refresh-Every P host reconcile base m keeps h.1)

pub for_families-Every :
    (P : Family → Type 0) (body : Family → Tables → Family × Tables)
    → Keeps P body
    → (m : JsMap Family) (t : Tables) → Every P m
    → Every P (for_families body m t).0
unfolding for_families
for_families-Every P body keeps [] t h = tt
for_families-Every P body keeps ((i, f) ∷ m) t h =
    (keeps f t h.0, for_families-Every P body keeps m (body f t).1 h.1)

pub evict-Every :
    (P : Family → Type 0) (active : Option String) (m : JsMap Family) (t : Tables)
    → Every P m
    → Every P (evict active m t).0
unfolding evict
evict-Every P active [] t h = tt
evict-Every P active ((i, f) ∷ m) t h = ground (arith, evict-Every P active m t h.1)
