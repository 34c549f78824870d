-- ===== src/Optimistic/Views.antt =====
-- The exported reads and the small writes of client/optimistic.ts.
use sync_resource.Shared.{
  String, Bool, true, not, ◌||◌, Option, none, some, List, [], ◌∷◌, or_default, if◌then◌else◌,
}
use sync_resource.Shared.JsMap.{JsMap, has, values}
use sync_resource.Js.{Value, is_set}
use sync_resource.Optimistic.Types.{
  PageMeta, PageState, Family, State, PendingCommand, Host, Reconcile,
}
use sync_resource.Optimistic.Refs.{no_families}
use sync_resource.Optimistic.Window.{pages_of}
use sync_resource.Optimistic.Changes.{matches}
use sync_resource.Optimistic.Families.{read_family, get_active_family}
use sync_resource.Optimistic.QueryKey.{query_family_key}
use sync_resource.Optimistic.Pages.{change_at}
use sync_resource.Optimistic.Pending.{refreshed_data}
use sync_resource.Optimistic.Overlay.{overlay_items, family_items}

-- setBaseData
unfoldable pub set_base_data : State → Value → Reconcile → List PendingCommand → State
set_base_data s value reconcile commands = record s {
  base_data = value;
  shown_data = refreshed_data reconcile value commands;
}

-- selectQueryFamily
unfoldable pub select_query_family : Host → State → Value → State
select_query_family host s query = record s {
  active_family_key = some (query_family_key host query);
}

-- hasQueryFamily
unfoldable pub has_query_family : Host → State → Value → Bool
has_query_family host s query = has (query_family_key host query) s.families

-- the views that a read leaves in the family that it has found under the key
unfoldable pub keep_view : State → String → Option Family → State
keep_view s key none = s
keep_view s key (some g) = record s {
  families =
      change_at key (λ f. record f { items_view = g.items_view; pages_view = g.pages_view })
        s.families;
}

-- The keys of a map.
unfoldable pub keys : JsMap Value → List String
keys [] = []
keys ((k, v) ∷ m) = k ∷ keys m

-- activeItems
unfoldable pub active_items : State → Reconcile → List PendingCommand → State × List Value
unfolding is_set
active_items s reconcile commands =
    let (s', active) = get_active_family s in
    elim active [
      | some f ↦
          let (kept, items) = family_items (some f) reconcile commands (λ _. true) in
          (keep_view s' (or_default s.active_family_key "") kept, items)
      | none ↦
          if is_set s'.active_family_key || not (no_families s'.families)
          then (s', (family_items none reconcile commands (λ _. true)).1)
          else (
            s',
            overlay_items (keys s.base_items) (values s.base_items) reconcile commands (λ _. true),
          )
    ]

-- itemsForQueryFamily
unfoldable pub items_for_query_family :
    Host → State → Value → Reconcile → List PendingCommand → State × List Value
items_for_query_family host s query reconcile commands =
    let key = query_family_key host query in
    let (s', found) = read_family s key in
    elim found [
      | none ↦ (s', [])
      | some f ↦
          let (kept, items) =
            family_items (some f) reconcile commands (λ item. matches reconcile item f.query) in
          (keep_view s' key kept, items)
    ]

-- activePageMetas
unfoldable pub active_page_metas : State → State × List PageMeta
active_page_metas s =
    let (s', active) = get_active_family s in (s', elim active [ none ↦ [] | some f ↦ f.pages ])

-- the pages of a family that a read has found
unfoldable pub pages_of_found : State → String → Option Family → State × List PageState
pages_of_found s key none = (s, [])
pages_of_found s key (some f) = let (f', pages) = pages_of f in (keep_view s key (some f'), pages)

-- activePages
unfoldable pub active_pages : State → State × List PageState
active_pages s =
    let (s', active) = get_active_family s in
    pages_of_found s' (or_default s.active_family_key "") active

-- pagesForQueryFamily
unfoldable pub pages_for_query_family : Host → State → Value → State × List PageState
pages_for_query_family host s query =
    let key = query_family_key host query in
    let (s', found) = read_family s key in pages_of_found s' key found

-- metaForQueryFamily
unfoldable pub meta_for_query_family : Host → State → Value → State × Value
meta_for_query_family host s query =
    let (s', found) = read_family s (query_family_key host query) in
    (s', elim found [ none ↦ Value.undefined | some f ↦ f.meta ])
