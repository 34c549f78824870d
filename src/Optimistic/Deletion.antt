-- ===== src/Optimistic/Deletion.antt =====
-- The branch for itemDeleted of client/optimistic.ts: what it leaves behind.
use sync_resource.Shared.{
  String, ◌≡◌, ◌∙◌, refl, false, none, some, [], ◌∷◌, arith, eq_refl, inl, inr, get_elem?,
  Bool-cases, Option-cases, ◌==◌,
}
use sync_resource.Shared.JsMap.{JsMap, get, get-delete}
use sync_resource.Js.{Value, truthy}
use sync_resource.Optimistic.Types.{Family, Tables, State, Host, Reconcile}
use sync_resource.Optimistic.Refs.{release, for_families}
use sync_resource.Optimistic.Window.{index_of}
use sync_resource.Optimistic.Changes.{release_if_set, remove_entry, drop_item, remove_id}
use sync_resource.Optimistic.Envelope.{is_base_data, apply_deleted}
use sync_resource.Optimistic.Occurs.{occurs}
use sync_resource.Optimistic.Every.Maps.{Every, get-Every}
use sync_resource.Optimistic.Distinct.{AllOnce, drop_item_gone}

-- Nothing under the id in the base items.
abbrev Unstored : String → Tables → Type 0
Unstored id t = get id t.base_items ≡ none

release-Unstored : (id j : String) (t : Tables) → Unstored id t → Unstored id (release t j)
unfolding release
release-Unstored id j t h = ground (arith, get-delete j id t.base_items)

drop_item-Unstored :
    (id : String) (f : Family) (t : Tables) → Unstored id t → Unstored id (drop_item id f t).1
unfolding drop_item remove_entry release_if_set
drop_item-Unstored id f t h = elim (Option-cases (index_of id f.ids)) [
  | inl e ↦ rw (e, drop_item) h
  | inr (index, e) ↦
      rw (e, drop_item)
        (elim (Option-cases (get_elem? f.ids index)) [
          | inl missing ↦ rw (missing, release_if_set) h
          | inr (j, there) ↦
              rw (there, release_if_set)
                (elim (Bool-cases (j == "")) [
                  | inl empty ↦ rw empty h
                  | inr set ↦ rw set (release-Unstored id j t h)
                ])
        ])
]

abbrev Gone : String → Family → Type 0
Gone id f = occurs id f.ids ≡ 0

removed-Gone :
    (id : String) (fs : JsMap Family) (t : Tables)
    → AllOnce id fs
    → Every (Gone id) (for_families (drop_item id) fs t).0
unfolding for_families
removed-Gone id [] t once = tt
removed-Gone id ((k, f) ∷ fs) t once =
    (drop_item_gone id f t once.0, removed-Gone id fs (drop_item id f t).1 once.1)

removed-Unstored :
    (id : String) (fs : JsMap Family) (t : Tables)
    → Unstored id t
    → Unstored id (for_families (drop_item id) fs t).1
unfolding for_families
removed-Unstored id [] t h = h
removed-Unstored id ((k, f) ∷ fs) t h =
    removed-Unstored id fs (drop_item id f t).1 (drop_item-Unstored id f t h)

undefined_hidden :
    (host : Host) (reconcile : Reconcile) (id : String) (s : State)
    → s.base_data ≡ Value.undefined
    → is_base_data host reconcile id s ≡ false
unfolding is_base_data truthy
undefined_hidden host reconcile id s e = rw e (ground arith)

is_base_data-same :
    (host : Host) (reconcile : Reconcile) (id : String) (a b : State)
    → a.base_data ≡ b.base_data
    → is_base_data host reconcile id a ≡ is_base_data host reconcile id b
unfolding is_base_data
is_base_data-same host reconcile id a b e = rw e refl

-- After a deletion nothing of the item is left.
pub record IsForgotten (host : Host) (reconcile : Reconcile) (id : String) (s : State)
    : Type 0 where
  pub hidden : is_base_data host reconcile id s ≡ false
  pub unstored : get id s.base_items ≡ none
  pub unlisted : (key : String) (f : Family) → get key s.families ≡ some f → occurs id f.ids ≡ 0

-- Where no family holds the id twice, its deletion leaves it in no family, not among the base items
-- and not as the single record.
pub apply_deleted-IsForgotten :
    (host : Host) (reconcile : Reconcile) (id : String) (s : State)
    → AllOnce id s.families
    → IsForgotten host reconcile id (apply_deleted host reconcile id s)
unfolding apply_deleted remove_id
apply_deleted-IsForgotten host reconcile id s once = record {
  hidden = elim (Bool-cases (is_base_data host reconcile id s)) [
    | inl shown ↦ undefined_hidden host reconcile id _ (rw shown refl)
    | inr other ↦ is_base_data-same host reconcile id _ s (rw other refl) ∙ other
  ];
  unstored = removed-Unstored id s.families _ (rw (get-delete id id s.base_items, eq_refl id) refl);
  unlisted = λ key f e. get-Every (Gone id) key _ f (removed-Gone id s.families _ once) e;
}
