-- ===== src/Optimistic/Counts/Envelopes.antt =====
-- applyEnvelope keeps the reference counts of a state exact.
use sync_resource.Shared.{
  ℕ, String, ◌≡◌, refl, subst, Bool, true, false, not, ◌&&◌, [], ◌∷◌, arith, eq_iff, inl, inr,
  Bool-cases, ◌==◌,
}
use sync_resource.Shared.JsMap.{JsMap, delete, get-put, get-delete}
use sync_resource.Js.{Value, truthy}
use sync_resource.Optimistic.Types.{Family, Tables, State, Host, Reconcile}
use sync_resource.Optimistic.Refs.{no_families, store_if_referenced, for_families}
use sync_resource.Optimistic.Changes.{
  add_item, add_item_across, update_item, update_item_across, drop_item,
}
use sync_resource.Optimistic.Families.{get_active_family}
use sync_resource.Optimistic.Envelope.{
  active_key, is_base_data, apply_added, update_base_data, next_value, no_active_pages,
  store_updated, apply_updated,
}
use sync_resource.Optimistic.Pages.{item_of}
use sync_resource.Optimistic.Occurs.{total}
use sync_resource.Optimistic.Counts.{Tracks, Balances, recount, for_families-Tracks}
use sync_resource.Optimistic.Counts.Steps.{
  add_item-Balances, update_item-Balances, drop_item-Balances,
}
use sync_resource.Optimistic.Counts.Maps.{for_families-UniqueKeys}
use sync_resource.Optimistic.Counts.States.{
  RightAt, IsCounted, RightAt-of-Tracks, get_active_family-IsCounted,
}
use sync_resource.Optimistic.Distinct.{drop_item_gone}
use sync_resource.Optimistic.Distinct.{AllOnce}

-- The item that is stored after a loop over the families.
store-RightAt :
    (fs : JsMap Family) (t : Tables) (id : String) (item : Value) (j : String)
    → no_families fs ≡ false
    → Tracks (id == j) j (total j fs) t
    → RightAt j fs (store_if_referenced fs t id item)
unfolding store_if_referenced
store-RightAt fs t id item j n h =
    RightAt-of-Tracks j fs _ (ground (arith, eq_iff id j, get-put id j item t.base_items))

exempt_from :
    (exempt : Bool) (j : String) (n : ℕ) (t : Tables) → Tracks false j n t → Tracks exempt j n t
exempt_from exempt j n t h = ground arith

-- A loop that balances the tables, but for the id that is stored after it.
loop-RightAt :
    (body : Family → Tables → Family × Tables) (id : String) (item : Value) (j : String)
    (fs : JsMap Family) (t : Tables)
    → Balances (id == j) j body
    → RightAt j fs t
    → RightAt j
        (for_families body fs t).0
        (store_if_referenced (for_families body fs t).0 (for_families body fs t).1 id item)
unfolding for_families store_if_referenced no_families
loop-RightAt body id item j [] t b h = h
loop-RightAt body id item j ((k, f) ∷ fs) t b h =
    let after = for_families body ((k, f) ∷ fs) t in
    store-RightAt after.0 after.1 id item j refl (
      recount (omega arith) (
        for_families-Tracks (id == j) j body b ((k, f) ∷ fs) t 0
          (recount (omega arith) (exempt_from (id == j) j (total j ((k, f) ∷ fs)) t h))))

self_exempt : (b : Bool) → (b && not b) ≡ false
self_exempt true = refl
self_exempt false = refl

module _ (host : Host) (reconcile : Reconcile) where
  pub apply_added-IsCounted :
      (append : Bool) (id : String) (value : Value) (s : State)
      → IsCounted s
      → IsCounted (apply_added host reconcile append id value s)
  unfolding apply_added add_item_across
  apply_added-IsCounted append id value s h =
      let read = get_active_family-IsCounted s h in
      let (s', active) = get_active_family s in
      let body = add_item host reconcile (active_key active) append id value in
      record {
        unique = for_families-UniqueKeys body s'.families s'.tables read.unique;
        right = λ j named.
            loop-RightAt body id value j s'.families s'.tables
              (add_item-Balances (id == j) j id named (self_exempt (id == j)) host reconcile
                (active_key active) append value)
              (read.right j named);
      }

  store_updated-IsCounted :
      (id : String) (next : Value) (s : State)
      → IsCounted s
      → IsCounted (store_updated host reconcile id next s)
  unfolding store_updated update_item_across
  store_updated-IsCounted id next s h =
      let body = update_item host reconcile id next in
      record {
        unique = for_families-UniqueKeys body s.families s.tables h.unique;
        right = λ j named.
            loop-RightAt body id next j s.families s.tables
              (update_item-Balances (id == j) j named host reconcile id next
                (self_exempt (id == j)))
              (h.right j named);
      }

  update_base_data-IsCounted :
      (id : String) (patch value : Value) (s : State)
      → IsCounted s
      → IsCounted (update_base_data host reconcile id patch value s)
  unfolding update_base_data
  update_base_data-IsCounted id patch value s h =
      let read = get_active_family-IsCounted s h in
      elim (Bool-cases (is_base_data host reconcile id s)) [
        | inl shown ↦ rw shown (record { unique = h.unique; right = h.right })
        | inr other ↦
            rw other (elim (Bool-cases (no_active_pages (get_active_family s).1 && truthy value)) [
              | inl single ↦ rw single (record { unique = read.unique; right = read.right })
              | inr paged ↦ rw paged read
            ])
      ]

  pub apply_updated-IsCounted :
      (id : String) (patch value : Value) (s : State)
      → IsCounted s
      → IsCounted (apply_updated host reconcile id patch value s)
  unfolding apply_updated
  apply_updated-IsCounted id patch value s h =
      let next = next_value host reconcile value (item_of id s.base_items) patch in
      let based = update_base_data-IsCounted id patch value s h in
      elim (Bool-cases (truthy next)) [
        | inl stored ↦ rw stored (store_updated-IsCounted id next _ based)
        | inr gone ↦ rw gone based
      ]

-- Removing an id that no family holds twice leaves it in none.
total-remove_id :
    (id : String) (fs : JsMap Family) (t : Tables)
    → AllOnce id fs
    → total id (for_families (drop_item id) fs t).0 ≡ 0
unfolding for_families total
total-remove_id id [] t h = refl
total-remove_id id ((k, f) ∷ fs) t h =
    omega (arith, drop_item_gone id f t h.0, total-remove_id id fs (drop_item id f t).1 h.1)

settled :
    (id j : String) (fs : JsMap Family) (t : Tables)
    → total id fs ≡ 0
    → Tracks (id == j) j (total j fs) t
    → Tracks false j (total j fs) t
settled id j fs t gone h = elim (Bool-cases (id == j)) [
  | inl same ↦
      let none_left : total j fs ≡ 0 = rw ((eq_iff id j).0 same) at gone in
      ground (arith, none_left)
  | inr other ↦ subst (λ b. Tracks b j (total j fs) t) other h
]

-- The tables after the item has been deleted and its places removed.
pub removed-RightAt :
    (id j : String) (fs : JsMap Family) (t : Tables)
    → (j == "") ≡ false
    → AllOnce id fs
    → RightAt j fs t
    → let without : Tables = record t { base_items = delete id t.base_items } in
      RightAt j
        (for_families (drop_item id) fs without).0
        (for_families (drop_item id) fs without).1
unfolding for_families
removed-RightAt id j [] t named once h = h
removed-RightAt id j ((k, f) ∷ fs) t named once h =
    let without : Tables = record t { base_items = delete id t.base_items } in
    let start : Tracks (id == j) j (total j ((k, f) ∷ fs)) without =
      ground (arith, h.counted, h.no_leak, h.present, get-delete id j t.base_items) in
    let after =
      for_families-Tracks (id == j) j (drop_item id) (drop_item-Balances (id == j) j named id)
        ((k, f) ∷ fs) without 0 (recount (omega arith) start) in
    RightAt-of-Tracks j _ _ (
      settled id j _ _ (total-remove_id id ((k, f) ∷ fs) without once)
        (recount (omega arith) after))
