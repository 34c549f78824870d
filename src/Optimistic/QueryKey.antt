-- ===== src/Optimistic/QueryKey.antt =====
-- shared/stableJson.ts, and queryFamilyKey and queryWithoutCursor of client/optimistic.ts.
use Prim.Native.Nat.{Ordering}
use Prim.Native.String.{compare}
use sync_resource.Shared.{String, Bool, true, false, or_default, if◌then◌else◌, ◌==◌}
use sync_resource.Js.{Value, Values, Fields}
use sync_resource.Optimistic.Types.{Host}

-- `Object.keys(value).sort()` on the entries, one insertion
unfoldable pub insert_field : String → Value → Fields → Fields
insert_field k v Fields.end = Fields.field k v Fields.end
insert_field k v (Fields.field j w fs) = elim (compare j k) [
  | Ordering.gt ↦ Fields.field k v (Fields.field j w fs)
  | _ ↦ Fields.field j w (insert_field k v fs)
]

unfoldable pub sort_fields : Fields → Fields
unfolding insert_field
sort_fields Fields.end = Fields.end
sort_fields (Fields.field k v fs) = insert_field k v (sort_fields fs)

unfoldable pub is_undefined : Value → Bool
is_undefined Value.undefined = true
is_undefined _ = false

-- toStableJson; `stable_fields` is its loop before the sort of the keys
unfoldable mutual
  unfolding is_undefined sort_fields

  pub to_stable_json : Value → Value
  to_stable_json (Value.array vs) = Value.array (stable_values vs)
  to_stable_json (Value.object fs) = Value.object (sort_fields (stable_fields fs))
  to_stable_json v = v

  pub stable_values : Values → Values
  stable_values Values.nil = Values.nil
  stable_values (Values.cons v vs) = Values.cons (to_stable_json v) (stable_values vs)

  pub stable_fields : Fields → Fields
  stable_fields Fields.end = Fields.end
  stable_fields (Fields.field k v fs) =
      let rest = stable_fields fs in
      if is_undefined v then rest else Fields.field k (to_stable_json v) rest

-- stableStringify
unfoldable pub stable_stringify : Host → Value → String
stable_stringify host v = or_default (host.stringify (to_stable_json v)) "undefined"

-- the entries of queryWithoutCursor, before the sort of the keys
unfoldable pub fields_without_cursor : Fields → Fields
fields_without_cursor Fields.end = Fields.end
fields_without_cursor (Fields.field k v fs) =
    let rest = fields_without_cursor fs in
    if k == "cursor" then rest else Fields.field k (to_stable_json v) rest

-- queryWithoutCursor
unfoldable pub query_without_cursor : Value → Value
query_without_cursor (Value.object fs) = Value.object (sort_fields (fields_without_cursor fs))
query_without_cursor v = v

-- queryFamilyKey
unfoldable pub query_family_key : Host → Value → String
query_family_key host query = stable_stringify host (query_without_cursor query)
