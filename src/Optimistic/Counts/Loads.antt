-- ===== src/Optimistic/Counts/Loads.antt =====
-- applyPageItems keeps the reference counts of a state exact.
use sync_resource.Shared.{
  ℕ, ◌+◌, ◌-◌, String, ◌≡◌, refl, Bool, false, Option, none, some, List, ◌++◌, arith, inl, inr,
  take, drop, Bool-cases,
}
use sync_resource.Shared.JsMap.{JsMap, get}
use sync_resource.Js.{Value, property, read_string}
use sync_resource.Optimistic.Types.{Family, State, Host, Reconcile}
use sync_resource.Optimistic.Families.{get_or_create_family}
use sync_resource.Optimistic.QueryKey.{query_family_key, query_without_cursor}
use sync_resource.Optimistic.Pages.{
  Slot, collect_items, slot_of, replace_start, replace_end, fresh_entries, load_page, finish_page,
  change_at, refresh_loaded_items, replaced_ids, page_tables, page_families, fill_family,
  fill_if_there, apply_page_items,
}
use sync_resource.Optimistic.Occurs.{occurs, total, occurs-append}
use sync_resource.Optimistic.Counts.{recount}
use sync_resource.Optimistic.Counts.Maps.{
  UniqueKeys, total-change_at, total-change_same, total-refresh, change_at-UniqueKeys,
  refresh-UniqueKeys, occurs-le-total,
}
use sync_resource.Optimistic.Counts.States.{
  IsCounted, RightAt-of-Tracks, Tracks-of-RightAt, no_families_of_get,
}
use sync_resource.Optimistic.Counts.Creation.{get_or_create-IsCounted}
use sync_resource.Optimistic.Counts.Pages.{
  kept_ids, has-collect_items, length-collect_items, page_tables-Tracks,
}

module _ (host : Host) (reconcile : Reconcile) where
  pub ids-finish_page :
      (slot : Slot) (start : ℕ) (meta : Value) (f : Family)
      → (finish_page slot start meta reconcile f).ids ≡ f.ids
  unfolding finish_page
  ids-finish_page slot start meta f = refl

  -- After the page the total differs by the places of its own family.
  total-page_families :
      (j key : String) (slot : Slot) (load : Family → Family) (meta : Value) (start : ℕ)
      (seen : Bool) (base : JsMap Value) (m : JsMap Family) (f : Family)
      → get key m ≡ some f
      → total j (page_families host reconcile key slot load meta start seen base m) + occurs j f.ids
        ≡ total j m + occurs j (load f).ids
  unfolding page_families
  total-page_families j key slot load meta start seen base m f e =
      let loaded = change_at key load m in
      let finished = λ (n : JsMap Family).
        total-change_same j key (finish_page slot start meta reconcile) n
          (ids-finish_page slot start meta) in
      let change = total-change_at j key load m f e in
      elim (Bool-cases seen) [
        | inl known ↦ rw known (
            omega (
              arith,
              finished (refresh_loaded_items host reconcile base loaded),
              total-refresh j host reconcile base loaded,
              change,
            ))
        | inr new ↦ rw new (omega (arith, finished loaded, change))
      ]

  page_families-UniqueKeys :
      (key : String) (slot : Slot) (load : Family → Family) (meta : Value) (start : ℕ) (seen : Bool)
      (base : JsMap Value) (m : JsMap Family)
      → UniqueKeys m
      → UniqueKeys (page_families host reconcile key slot load meta start seen base m)
  unfolding page_families
  page_families-UniqueKeys key slot load meta start seen base m u =
      let loaded = change_at-UniqueKeys key load m u in
      elim (Bool-cases seen) [
        | inl known ↦
            rw known
              (change_at-UniqueKeys key _ _ (refresh-UniqueKeys host reconcile base _ loaded))
        | inr new ↦ rw new (change_at-UniqueKeys key _ _ loaded)
      ]

  -- The places of the family after the page: those of the page and those that it kept.
  pub occurs-load_page :
      (j : String) (slot : Slot) (cursor_in page_cursor : Option String) (f : Family)
      (ids : List String) (values : List Value)
      → occurs j (load_page slot cursor_in page_cursor f ids values).ids
        ≡ occurs j ids + occurs j (kept_ids slot f)
  unfolding load_page
  occurs-load_page j slot cursor_in page_cursor f ids values =
      let front = take (replace_start slot f) f.ids in
      let back = drop (replace_end slot f) f.ids in
      omega (
        arith,
        occurs-append j front (ids ++ back),
        occurs-append j ids back,
        occurs-append j front back,
      )

  fill_family-IsCounted :
      (s : State) (key : String) (f : Family) (items : List Value)
      (cursor_in page_cursor : Option String) (meta : Value)
      → get key s.families ≡ some f
      → IsCounted s
      → IsCounted (fill_family host reconcile s key f items cursor_in page_cursor meta)
  unfolding fill_family
  fill_family-IsCounted s key f items cursor_in page_cursor meta e h =
      let batch = collect_items reconcile items s.base_items false in
      let slot = slot_of cursor_in f.pages in
      let fresh = fresh_entries slot f batch in
      let load = λ (g : Family). load_page slot cursor_in page_cursor g fresh.0 fresh.1 in
      let tables = page_tables s.tables batch fresh.0 (replaced_ids slot f) in
      record {
        unique = page_families-UniqueKeys key slot load meta _ batch.seen _ s.families h.unique;
        right = λ j named.
            let others = total j s.families - occurs j f.ids in
            let part = occurs-le-total j key s.families f e in
            let before =
              Tracks-of-RightAt j s.families s.tables (no_families_of_get key s.families f e)
                (h.right j named) in
            RightAt-of-Tracks j _ _ (
              recount
                (omega (
                  arith,
                  part,
                  total-page_families j key slot load meta (replace_start slot f) batch.seen
                      tables.base_items s.families f e,
                  occurs-load_page j slot cursor_in page_cursor f fresh.0 fresh.1,
                ))
                (page_tables-Tracks slot f batch
                  (length-collect_items reconcile items s.base_items false) j others s.tables
                  (has-collect_items reconcile items s.base_items false j)
                  (recount (omega (arith, part)) before)));
      }

  fill_if_there-IsCounted :
      (s : State) (key : String) (there : Option Family) (items : List Value)
      (cursor_in page_cursor : Option String) (meta : Value)
      → get key s.families ≡ there
      → IsCounted s
      → IsCounted (fill_if_there host reconcile s key there items cursor_in page_cursor meta)
  unfolding fill_if_there
  fill_if_there-IsCounted s key none items cursor_in page_cursor meta e h = h
  fill_if_there-IsCounted s key (some f) items cursor_in page_cursor meta e h =
      fill_family-IsCounted s key f items cursor_in page_cursor meta e h

  -- A loaded page keeps the invariant, whatever the page, the query and the cursor are.
  pub apply_page_items-IsCounted :
      (s : State) (items : List Value) (query : Value) (page_cursor : Option String) (meta : Value)
      (activate : Bool)
      → IsCounted s
      → IsCounted (apply_page_items host reconcile s items query page_cursor meta activate)
  unfolding apply_page_items
  apply_page_items-IsCounted s items query page_cursor meta activate h =
      let key = query_family_key host query in
      let made = get_or_create_family s key (query_without_cursor query) in
      let filled =
        fill_if_there-IsCounted made key (get key made.families) items
          (read_string (property "cursor" query)) page_cursor meta refl
          (get_or_create-IsCounted s key (query_without_cursor query) h) in
      elim (Bool-cases activate) [
        | inl chosen ↦ rw chosen (record { unique = filled.unique; right = filled.right })
        | inr left ↦ rw left filled
      ]
