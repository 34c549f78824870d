-- ===== src/Optimistic/Snapshot.antt =====
-- captureOptimisticState and restoreOptimisticState of client/optimistic.ts: what a store puts in
-- its cache, and back.
use sync_resource.Shared.{String, Bool, Option, none, some, List, [], ◌∷◌, map}
use sync_resource.Shared.JsMap.{JsMap, put, values}
use sync_resource.Js.{Value}
use sync_resource.Optimistic.Types.{PageMeta, Family, Tables, State, Reconcile}
use sync_resource.Optimistic.Refs.{retain_all}
use sync_resource.Optimistic.Pages.{named_id, item_of}

pub record FamilySnapshot : Type 0 where
  pub key : String
  pub query : Value
  pub meta : Value
  pub pages : List PageMeta
  pub ids : List String
  pub sorted : Bool

-- CachedOptimisticState
pub record Snapshot : Type 0 where
  pub base_data : Value
  pub base_items : List Value
  pub families : List FamilySnapshot
  pub active_family_key : Option String
  pub cursor : Option String

unfoldable pub capture_family : Family → FamilySnapshot
capture_family f = record {
  key = f.key;
  query = f.query;
  meta = f.meta;
  pages = f.pages;
  ids = f.ids;
  sorted = f.sorted;
}

-- captureOptimisticState
unfoldable pub capture_optimistic_state : State → Snapshot
unfolding capture_family
capture_optimistic_state s = record {
  base_data = s.base_data;
  base_items = values s.base_items;
  families = map capture_family (values s.families);
  active_family_key = s.active_family_key;
  cursor = s.cursor;
}

-- the loop over the base items
unfoldable pub restore_items : Reconcile → List Value → JsMap Value → JsMap Value
restore_items reconcile [] base = base
restore_items reconcile (item ∷ items) base =
    restore_items reconcile items
      (elim (named_id reconcile item) [ none ↦ base | some id ↦ put id item base ])

-- `ids.map((id) => state.baseItems.get(id))`
unfoldable pub items_of_ids : JsMap Value → List String → List Value
items_of_ids base [] = []
items_of_ids base (id ∷ ids) = item_of id base ∷ items_of_ids base ids

-- the loop over the families
unfoldable pub restore_families :
    List FamilySnapshot → Tables → JsMap Family → JsMap Family × Tables
restore_families [] t families = (families, t)
restore_families (f ∷ fs) t families = restore_families fs (retain_all t f.ids) (
    put f.key
      (record {
        key = f.key;
        query = f.query;
        meta = f.meta;
        pages = f.pages;
        ids = f.ids;
        items = items_of_ids t.base_items f.ids;
        sorted = f.sorted;
        items_view = none;
        pages_view = none;
      })
      families)

-- restoreOptimisticState
unfoldable pub restore_optimistic_state : Snapshot → Reconcile → State
restore_optimistic_state snapshot reconcile =
    let (families, tables) =
      restore_families snapshot.families
        (record { base_items = restore_items reconcile snapshot.base_items []; family_refs = [] })
        [] in
    record {
      tables = tables;
      shown_data = snapshot.base_data;
      base_data = snapshot.base_data;
      families = families;
      active_family_key = snapshot.active_family_key;
      recent_family_key = none;
      cursor = snapshot.cursor;
    }
