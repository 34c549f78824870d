-- ===== src/Optimistic/Every.antt =====
-- A property of every family of a state of client/optimistic.ts, through the operations on the map.
pub mod Envelopes
pub mod Maps
use sync_resource.Shared.{
  ℕ, zero, suc, ◌+◌, ◌≤◌, String, ◌≡◌, refl, sym, ap, subst, ◌∙◌, Bool, true, false, not, ◌&&◌,
  ◌||◌, Option, none, some, List, [], ◌∷◌, ◌++◌, arith, eq_iff, eq_refl, inl, inr, length, take,
  drop, ltb, is_some, Bool-cases, Option-cases, if◌then◌else◌, ◌==◌,
}
use sync_resource.Shared.JsMap.{JsMap, get, put, delete, has, get-put}
use sync_resource.Js.{Value}
use sync_resource.Optimistic.Types.{Family, Tables, State, Host, Reconcile}
use sync_resource.Optimistic.Refs.{for_families}
use sync_resource.Optimistic.Families.{
  max_families, is_key, read_family, get_active_family, evict, evict_over_limit, new_family,
  create_family, get_or_create_family,
}
use sync_resource.Optimistic.Pages.{
  Slot, change_at, refresh_family, refresh_loaded_items, finish_page, page_families,
}
use sync_resource.Optimistic.Counts.Creation.{get-read_family}
use sync_resource.Optimistic.Every.Maps.{
  Every, delete-Every, evict-Every, get-Every, put-Every, refresh-Every,
}

module _ (P : Family → Type 0) (s : State) (h : Every P s.families) where
  pub read_family-Every : (key : String) → Every P (read_family s key).0.families
  unfolding read_family
  read_family-Every key = elim (Option-cases (get key s.families)) [
    | inl e ↦ rw (e, read_family) h
    | inr (f, e) ↦
        rw (e, read_family)
          (elim (Bool-cases (is_key s.recent_family_key key)) [
            | inl recent ↦ rw recent h
            | inr old ↦ rw old (
                put-Every P key f _ (get-Every P key s.families f h e)
                  (delete-Every P key s.families h))
          ])
  ]

  pub get_active_family-Every : Every P (get_active_family s).0.families
  unfolding get_active_family
  get_active_family-Every = elim (Option-cases s.active_family_key) [
    | inl e ↦ rw (e, get_active_family) h
    | inr (key, e) ↦
        rw (e, get_active_family)
          (elim (Bool-cases (key == "")) [
            | inl empty ↦ rw empty h
            | inr set ↦ rw set (read_family-Every key)
          ])
  ]

create_family-Every :
    (P : Family → Type 0) (s : State) (key : String) (query : Value)
    → P (new_family key query)
    → Every P s.families
    → Every P (create_family s key query).families
unfolding create_family evict_over_limit
create_family-Every P s key query fresh h =
    let made = put-Every P key (new_family key query) s.families fresh h in
    elim (Bool-cases (ltb max_families (length (put key (new_family key query) s.families)))) [
      | inl over ↦ rw over (evict-Every P s.active_family_key _ _ made)
      | inr room ↦ rw room made
    ]

pub get_or_create-Every :
    (P : Family → Type 0) (s : State) (key : String) (query : Value)
    → P (new_family key query)
    → ((f : Family) → P f → P (record f { query = query }))
    → Every P s.families
    → Every P (get_or_create_family s key query).families
unfolding get_or_create_family
get_or_create-Every P s key query fresh requeried h =
    let read = read_family-Every P s h key in
    let s' = (read_family s key).0 in
    elim (Option-cases (read_family s key).1) [
      | inl e ↦ rw (e, get_or_create_family) (create_family-Every P s' key query fresh read)
      | inr (f, e) ↦
          rw (e, get_or_create_family)
            (put-Every P key (record f { query = query }) s'.families
              (requeried f (get-Every P key s'.families f read (get-read_family s key ∙ e))) read)
    ]

change_at-none : (key : String) (g : Family → Family) → change_at key g [] ≡ []
unfolding change_at
change_at-none key g = refl

change_at-here :
    (key k : String) (f : Family) (g : Family → Family) (m : JsMap Family)
    → (k == key) ≡ true
    → change_at key g ((k, f) ∷ m) ≡ (k, g f) ∷ m
unfolding change_at
change_at-here key k f g m e = rw e refl

change_at-past :
    (key k : String) (f : Family) (g : Family → Family) (m : JsMap Family)
    → (k == key) ≡ false
    → change_at key g ((k, f) ∷ m) ≡ (k, f) ∷ change_at key g m
unfolding change_at
change_at-past key k f g m e = rw e refl

module _ (P : Family → Type 0) (host : Host) (reconcile : Reconcile) where
  -- A write under the key, the refresh of every family, and the last write under the key.
  refreshed_between-Every :
      (key : String) (load finish : Family → Family) (base : JsMap Value) (m : JsMap Family)
      → ((f : Family)
          → get key m ≡ some f
          → P (finish (refresh_family host reconcile base (load f))))
      → ((g : Family) → P g → P (refresh_family host reconcile base g))
      → Every P m
      → Every P
          (change_at key finish (refresh_loaded_items host reconcile base (change_at key load m)))
  unfolding refresh_loaded_items get
  refreshed_between-Every key load finish base [] placed refreshed h =
      rw (change_at-none key load, change_at-none key finish) tt
  refreshed_between-Every key load finish base ((k, f) ∷ m) placed refreshed h =
      elim (Bool-cases (k == key)) [
        | inl e ↦
            rw (change_at-here key k f load m e, change_at-here key k _ finish _ e)
              (placed f (rw (e, get) refl), refresh-Every P host reconcile base m refreshed h.1)
        | inr e ↦
            rw (change_at-past key k f load m e, change_at-past key k _ finish _ e)
              (
                refreshed f h.0,
                refreshed_between-Every key load finish base m
                    (λ g there. placed g (rw (e, get) there)) refreshed h.1,
              )
      ]

  changed_twice-Every :
      (key : String) (load finish : Family → Family) (m : JsMap Family)
      → ((f : Family) → get key m ≡ some f → P (finish (load f)))
      → Every P m
      → Every P (change_at key finish (change_at key load m))
  unfolding get
  changed_twice-Every key load finish [] placed h =
      rw (change_at-none key load, change_at-none key finish) tt
  changed_twice-Every key load finish ((k, f) ∷ m) placed h = elim (Bool-cases (k == key)) [
    | inl e ↦
        rw (change_at-here key k f load m e, change_at-here key k _ finish m e)
          (placed f (rw (e, get) refl), h.1)
    | inr e ↦
        rw (change_at-past key k f load m e, change_at-past key k f finish _ e)
          (h.0, changed_twice-Every key load finish m (λ g there. placed g (rw (e, get) there)) h.1)
  ]

  -- The families after a page, by what the load, the refresh and the last writes do to one family.
  pub page_families-Every :
      (key : String) (slot : Slot) (load : Family → Family) (meta : Value) (start : ℕ) (seen : Bool)
      (base : JsMap Value) (m : JsMap Family) (f : Family)
      → get key m ≡ some f
      → P (finish_page slot start meta reconcile (load f))
      → P (finish_page slot start meta reconcile (refresh_family host reconcile base (load f)))
      → ((g : Family) → P g → P (refresh_family host reconcile base g))
      → Every P m
      → Every P (page_families host reconcile key slot load meta start seen base m)
  unfolding page_families
  page_families-Every key slot load meta start seen base m f e one two refreshed h =
      let finish = finish_page slot start meta reconcile in
      elim (Bool-cases seen) [
        | inl known ↦ rw known (
            refreshed_between-Every key load finish base m
              (λ g there.
                subst (λ k. P (finish (refresh_family host reconcile base (load k))))
                  (the_same g there) two)
              refreshed h)
        | inr new ↦ rw new (
            changed_twice-Every key load finish m
              (λ g there. subst (λ k. P (finish (load k))) (the_same g there) one) h)
      ]
    where
      the_same : (g : Family) → get key m ≡ some g → f ≡ g
      the_same g there = cc (sym e ∙ there)
