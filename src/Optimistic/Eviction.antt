-- ===== src/Optimistic/Eviction.antt =====
-- getOrCreateFamily of client/optimistic.ts: the bound on the families, and which of them stay.
pub mod Keys
use sync_resource.Shared.{
  suc, ◌≤◌, String, ◌≡◌, sym, ap, true, false, Option, [], ◌∷◌, eq_iff, length, ◌==◌,
}
use sync_resource.Shared.JsMap.{JsMap, has}
use sync_resource.Optimistic.Types.{Family, Tables, State}
use sync_resource.Optimistic.Families.{max_families, is_key, evict}

-- What getOrCreateFamily promises of the map of families.
pub record IsKept (s : State) (key : String) (after : State) : Type 0 where
  pub bounded : length after.families ≤ max_families
  pub there : has key after.families ≡ true
  pub active :
      (k : String)
      → is_key s.active_family_key k ≡ true
      → has k s.families ≡ true
      → has k after.families ≡ true
