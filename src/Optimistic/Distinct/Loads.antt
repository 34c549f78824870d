-- ===== src/Optimistic/Distinct/Loads.antt =====
-- A page whose ids are distinct leaves each family of client/optimistic.ts with distinct ids.
use sync_resource.Shared.{
  ◌+◌, ◌≤◌, String, ◌≡◌, refl, ap, ◌∙◌, Bool, true, false, ◌&&◌, ◌||◌, Option, none, some, List, [],
  ◌∷◌, arith, eq_iff, inl, inr, length, drop, ltb, Bool-cases, Option-cases, ◌==◌,
}
use sync_resource.Shared.JsMap.{JsMap, get, put, has, get-put}
use sync_resource.Js.{Value, property, read_string}
use sync_resource.Optimistic.Types.{Family, State, Host, Reconcile}
use sync_resource.Optimistic.Families.{new_family, get_or_create_family}
use sync_resource.Optimistic.QueryKey.{query_family_key, query_without_cursor}
use sync_resource.Optimistic.Pages.{
  Batch, Slot, named_id, collect_items, slot_of, replace_start, replace_end, has_cursor,
  fresh_entries, load_page, fill_family, fill_if_there, apply_page_items,
}
use sync_resource.Optimistic.Occurs.{occurs}
use sync_resource.Optimistic.Counts.Maps.{occurs-le-total, ids-refresh_family}
use sync_resource.Optimistic.Counts.States.{IsCounted, Tracks-of-RightAt, no_families_of_get}
use sync_resource.Optimistic.Counts.Creation.{get_or_create-IsCounted}
use sync_resource.Optimistic.Counts.Pages.{
  kept_ids, length-collect_items, occurs_split, occurs-drop_loaded,
}
use sync_resource.Optimistic.Counts.Loads.{occurs-load_page, ids-finish_page}
use sync_resource.Optimistic.Every.{page_families-Every, get_or_create-Every}
use sync_resource.Optimistic.Every.Maps.{get-Every}
use sync_resource.Optimistic.Distinct.{Once, AllOnce}

-- The ids of the items of a page that have one.
unfoldable pub page_ids : Reconcile → List Value → List String
page_ids reconcile [] = []
page_ids reconcile (item ∷ items) =
    let rest = page_ids reconcile items in
    elim (named_id reconcile item) [ none ↦ rest | some id ↦ id ∷ rest ]

abbrev pub PageOnce : Reconcile → List Value → Type 0
PageOnce reconcile items = (j : String) → occurs j (page_ids reconcile items) ≤ 1

module _ (reconcile : Reconcile) where
  ids-collect_items :
      (items : List Value) (base : JsMap Value) (seen : Bool)
      → (collect_items reconcile items base seen).ids ≡ page_ids reconcile items
  unfolding collect_items page_ids
  ids-collect_items [] base seen = refl
  ids-collect_items (item ∷ items) base seen = elim (Option-cases (named_id reconcile item)) [
    | inl e ↦ rw (e, collect_items, page_ids) (ids-collect_items items base seen)
    | inr (id, e) ↦
        rw (e, collect_items, page_ids)
          (ap (◌∷◌ id) (ids-collect_items items (put id item base) (seen || has id base)))
  ]

  seen-collect_items :
      (items : List Value) (base : JsMap Value)
      → (collect_items reconcile items base true).seen ≡ true
  unfolding collect_items
  seen-collect_items [] base = refl
  seen-collect_items (item ∷ items) base = elim (Option-cases (named_id reconcile item)) [
    | inl e ↦ rw (e, collect_items) (seen-collect_items items base)
    | inr (id, e) ↦ rw (e, collect_items) (seen-collect_items items (put id item base))
  ]

  -- A page with no id that was there before.
  unseen-collect_items :
      (items : List Value) (base : JsMap Value) (seen : Bool) (j : String)
      → (collect_items reconcile items base seen).seen ≡ false
      → (has j base && ltb 0 (occurs j (collect_items reconcile items base seen).ids)) ≡ false
  unfolding collect_items occurs
  unseen-collect_items [] base seen j u = ground arith
  unseen-collect_items (item ∷ items) base seen j u =
      elim (Option-cases (named_id reconcile item)) [
        | inl e ↦
            rw (e, collect_items)
              (unseen-collect_items items base seen j (rw (e, collect_items) at u))
        | inr (id, e) ↦
            let u' : (collect_items reconcile items (put id item base) (seen || has id base)).seen
                ≡ false =
              rw (e, collect_items) at u in
            rw (e, collect_items)
              (elim (Bool-cases (seen || has id base)) [
                | inl known ↦ cc (rw known at u', seen-collect_items items (put id item base))
                | inr new ↦ ground (
                  arith,
                  new,
                  unseen-collect_items items (put id item base) (seen || has id base) j u',
                  get-put id j item base,
                  eq_iff id j,
                )
              ])
      ]

  unnamed-page_ids :
      (items : List Value) (j : String) → (j == "") ≡ true → occurs j (page_ids reconcile items) ≡ 0
  unfolding page_ids occurs named_id
  unnamed-page_ids [] j e = refl
  unnamed-page_ids (item ∷ items) j e = ground (arith, unnamed-page_ids items j e, eq_iff j "")

drop-length {ℓ} : {A : Type ℓ} (xs : List A) → drop (length xs) xs ≡ []
drop-length [] = refl
drop-length (x ∷ xs) = drop-length xs

-- A page without a cursor keeps nothing of the family.
kept_none :
    (slot : Slot) (f : Family) (j : String)
    → has_cursor slot ≡ false
    → occurs j (kept_ids slot f) ≡ 0
unfolding has_cursor replace_start replace_end occurs
kept_none Slot.first f j e = ap (occurs j) (drop-length f.ids)
kept_none (Slot.again cursor i) f j e = cc
kept_none (Slot.later cursor) f j e = cc

-- The places of an id after a page, in the family that it is loaded into.
fresh_once :
    (slot : Slot) (f : Family) (batch : Batch) (j : String)
    → length batch.ids ≡ length batch.values
    → occurs j f.ids ≤ 1
    → occurs j batch.ids ≤ 1
    → (batch.seen ≡ false → (ltb 0 (occurs j batch.ids) && ltb 0 (occurs j f.ids)) ≡ false)
    → occurs j (fresh_entries slot f batch).0 + occurs j (kept_ids slot f) ≤ 1
unfolding fresh_entries
fresh_once slot f batch j aligned one page unseen =
    let split = occurs_split j slot f in
    let dropped = occurs-drop_loaded j (kept_ids slot f) batch.ids batch.values aligned in
    elim (Bool-cases (has_cursor slot)) [
      | inl later ↦ elim (Bool-cases batch.seen) [
        | inl seen ↦ rw (later, seen) (ground (arith, dropped, split))
        | inr new ↦ rw (later, new) (ground (arith, unseen new, split))
      ]
      | inr first ↦ rw first (omega (arith, kept_none slot f j first))
    ]

none_new : (j key : String) (query : Value) → Once j (new_family key (query_without_cursor query))
unfolding occurs
none_new j key query = omega arith

module _ (host : Host) (reconcile : Reconcile) where
  -- An id of a page that met no stored item is in no family.
  unseen_elsewhere :
      (s : State) (key : String) (f : Family) (items : List Value) (j : String)
      → get key s.families ≡ some f
      → IsCounted s
      → (collect_items reconcile items s.base_items false).seen ≡ false
      → (ltb 0 (occurs j (collect_items reconcile items s.base_items false).ids)
          && ltb 0 (occurs j f.ids))
        ≡ false
  unseen_elsewhere s key f items j e counted new =
      let batch = collect_items reconcile items s.base_items false in
      let apart = unseen-collect_items reconcile items s.base_items false j new in
      elim (Bool-cases (j == "")) [
        | inl unnamed ↦
            let gone : occurs j batch.ids ≡ 0 =
              ap (occurs j) (ids-collect_items reconcile items s.base_items false)
              ∙ unnamed-page_ids reconcile items j unnamed in
            ground (arith, gone)
        | inr named ↦
            let tracked =
              Tracks-of-RightAt j s.families s.tables (no_families_of_get key s.families f e)
                (counted.right j named) in
            ground (arith, apart, tracked.present, occurs-le-total j key s.families f e)
      ]

  fill_family-AllOnce :
      (s : State) (key : String) (f : Family) (items : List Value)
      (cursor_in page_cursor : Option String) (meta : Value) (j : String)
      → get key s.families ≡ some f
      → IsCounted s
      → PageOnce reconcile items
      → AllOnce j s.families
      → AllOnce j (fill_family host reconcile s key f items cursor_in page_cursor meta).families
  unfolding fill_family
  fill_family-AllOnce s key f items cursor_in page_cursor meta j e counted page h =
      let batch = collect_items reconcile items s.base_items false in
      let slot = slot_of cursor_in f.pages in
      let fresh = fresh_entries slot f batch in
      let placed =
        fresh_once slot f batch j (length-collect_items reconcile items s.base_items false)
          (get-Every (Once j) key s.families f h e)
          (rw (ids-collect_items reconcile items s.base_items false) (page j))
          (unseen_elsewhere s key f items j e counted) in
      let loaded = load_page slot cursor_in page_cursor f fresh.0 fresh.1 in
      let once : Once j loaded = omega (
        arith,
        placed,
        occurs-load_page host reconcile j slot cursor_in page_cursor f fresh.0 fresh.1,
      ) in
      let finish = ids-finish_page host reconcile slot (replace_start slot f) meta in
      page_families-Every (Once j) host reconcile key slot _ meta (replace_start slot f) batch.seen
        _ s.families f e (rw finish once) (rw finish (rw ids-refresh_family once))
        (λ g o. rw ids-refresh_family o) h

  fill_if_there-AllOnce :
      (s : State) (key : String) (there : Option Family) (items : List Value)
      (cursor_in page_cursor : Option String) (meta : Value) (j : String)
      → get key s.families ≡ there
      → IsCounted s
      → PageOnce reconcile items
      → AllOnce j s.families
      → AllOnce j
          (fill_if_there host reconcile s key there items cursor_in page_cursor meta).families
  unfolding fill_if_there
  fill_if_there-AllOnce s key none items cursor_in page_cursor meta j e counted page h = h
  fill_if_there-AllOnce s key (some f) items cursor_in page_cursor meta j e counted page h =
      fill_family-AllOnce s key f items cursor_in page_cursor meta j e counted page h

  -- A page of distinct ids keeps the ids of every family distinct.
  pub apply_page_items-AllOnce :
      (s : State) (items : List Value) (query : Value) (page_cursor : Option String) (meta : Value)
      (activate : Bool) (j : String)
      → IsCounted s
      → PageOnce reconcile items
      → AllOnce j s.families
      → AllOnce j (apply_page_items host reconcile s items query page_cursor meta activate).families
  unfolding apply_page_items
  apply_page_items-AllOnce s items query page_cursor meta activate j counted page h =
      let key = query_family_key host query in
      let made = get_or_create_family s key (query_without_cursor query) in
      let filled =
        fill_if_there-AllOnce made key (get key made.families) items
          (read_string (property "cursor" query)) page_cursor meta j refl
          (get_or_create-IsCounted s key (query_without_cursor query) counted) page
          (get_or_create-Every (Once j) s key (query_without_cursor query) (none_new j key query)
            (λ f o. o) h) in
      elim (Bool-cases activate) [ inl chosen ↦ rw chosen filled | inr left ↦ rw left filled ]
