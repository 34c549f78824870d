-- ===== src/Optimistic/Overlay.antt =====
-- overlayItems and familyItems of client/optimistic.ts: pending writes over a copy of the items.
use sync_resource.Shared.{
  ℕ, ◌+◌, String, Bool, Option, none, some, List, [], ◌∷◌, ◌++◌, length, get_elem?, set,
  if◌then◌else◌,
}
use sync_resource.Shared.JsMap.{JsMap, get, put, delete}
use sync_resource.Js.{Value}
use sync_resource.Optimistic.Types.{Family, PendingCommand, Reconcile}
use sync_resource.Optimistic.Order.{sort_items}
use sync_resource.Optimistic.Window.{plain_family_items}
use sync_resource.Optimistic.Pages.{contains}
use sync_resource.Optimistic.Pending.{PendingItems, apply_commands}

-- The two variables that the closures of `overlay` share: `undefined` in `visible` is a gap.
pub record Overlay : Type 0 where
  pub visible : List Value
  pub index : JsMap ℕ

-- `visible[i]`
unfoldable pub slot_at : List Value → ℕ → Value
slot_at visible i = elim (get_elem? visible i) [ none ↦ Value.undefined | some v ↦ v ]

unfoldable pub overlay_get : String → Overlay → Option Value
unfolding slot_at
overlay_get id o = elim (get id o.index) [ none ↦ none | some i ↦ some (slot_at o.visible i) ]

unfoldable pub overlay_set : String → Value → Overlay → Overlay
overlay_set id item o = elim (get id o.index) [
  | none ↦ record { visible = o.visible ++ item ∷ []; index = put id (length o.visible) o.index }
  | some i ↦ record o { visible = set o.visible i item }
]

unfoldable pub overlay_delete : String → Overlay → Overlay
overlay_delete id o = elim (get id o.index) [
  | none ↦ o
  | some i ↦ record { visible = set o.visible i Value.undefined; index = delete id o.index }
]

abbrev pub overlay_items_ops : PendingItems Overlay
overlay_items_ops = record {
  get_item = overlay_get;
  set_item = overlay_set;
  delete_item = overlay_delete;
}

-- `commands.flatMap((command) => command.targetIds)`
unfoldable pub all_targets : List PendingCommand → List String
all_targets [] = []
all_targets (c ∷ cs) = c.target_ids ++ all_targets cs

-- `ids.forEach((id, position) => targets.has(id) && index.set(id, position))`
unfoldable pub index_targets : List String → ℕ → List String → JsMap ℕ → JsMap ℕ
unfolding contains
index_targets targets position [] index = index
index_targets targets position (id ∷ ids) index =
    index_targets targets (position + 1) ids
      (if contains id targets then put id position index else index)

-- `visible.filter((item) => item !== undefined)`
unfoldable pub without_gaps : List Value → List Value
without_gaps [] = []
without_gaps (Value.undefined ∷ vs) = without_gaps vs
without_gaps (v ∷ vs) = v ∷ without_gaps vs

-- overlayItems
unfoldable pub overlay_items :
    List String → List Value → Reconcile → List PendingCommand → (Value → Bool) → List Value
unfolding sort_items
overlay_items ids items reconcile commands should_add =
    let start : Overlay = record {
      visible = items;
      index = index_targets (all_targets commands) 0 ids [];
    } in
    let v =
      apply_commands overlay_items_ops reconcile should_add commands
        (record { items = start; shown = Value.undefined }) in
    sort_items reconcile.compare (without_gaps (v.items.visible))

-- familyItems: the answer, and the family that keeps its view
unfoldable pub family_items :
    Option Family → Reconcile → List PendingCommand → (Value → Bool) → Option Family × List Value
family_items none reconcile commands should_add =
    (none, overlay_items [] [] reconcile commands should_add)
family_items (some f) reconcile [] should_add =
    let (f', items) = plain_family_items f reconcile in (some f', items)
family_items (some f) reconcile (c ∷ cs) should_add =
    (some f, overlay_items f.ids f.items reconcile (c ∷ cs) should_add)
