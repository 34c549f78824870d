-- ===== src/Optimistic/Patch.antt =====
-- applyPatch of client/optimistic.ts: `$set` and `$unset` by dotted paths, or a shallow merge.
use Prim.Native.Char.{code}
use sync_resource.Shared.{String, not, ◌&&◌, ◌||◌, List, [], ◌∷◌, eqb, if◌then◌else◌, ◌==◌}
use sync_resource.Js.{
  Value, Values, Fields, is_record, get_field, has_field, define_field, delete_field,
}

-- `path.split('.')`
unfoldable pub split_path : String → List String
split_path String.[] = "" ∷ []
split_path (String.◌∷◌ c s) = elim (split_path s) [
  | [] ↦ []
  | part ∷ parts ↦ if eqb (code c) b'.' then "" ∷ part ∷ parts else String.◌∷◌ c part ∷ parts
]

unfoldable pub fields_of : Value → Fields
fields_of (Value.object fs) = fs
fields_of _ = Fields.end

-- setPathMutable, over the parts of the path
unfoldable pub set_path : List String → Value → Fields → Fields
unfolding fields_of
set_path [] value target = target
set_path (last ∷ []) value target = if last == "" then target else define_field last value target
set_path (key ∷ next ∷ parts) value target =
    let inner = set_path (next ∷ parts) value (fields_of (get_field key target)) in
    if key == "" then target else define_field key (Value.object inner) target

unfoldable pub unset_in : (Fields → Fields) → Value → Value
unset_in f (Value.object fs) = Value.object (f fs)
unset_in f v = v

-- unsetPathMutable, over the parts of the path
unfoldable pub unset_path : List String → Fields → Fields
unfolding unset_in
unset_path [] target = target
unset_path (last ∷ []) target = if last == "" then target else delete_field last target
unset_path (key ∷ next ∷ parts) target =
    let inner = unset_in (unset_path (next ∷ parts)) (get_field key target) in
    if key == "" || not (is_record (get_field key target))
    then target
    else define_field key inner target

-- `for (const [key, value] of Object.entries(setValue))`
unfoldable pub set_all : Fields → Fields → Fields
unfolding set_path split_path
set_all Fields.end base = base
set_all (Fields.field key value entries) base =
    set_all entries (set_path (split_path key) value base)

-- `for (const key of unsetValue)`
unfoldable pub unset_all : Values → Fields → Fields
unfolding unset_path split_path
unset_all Values.nil base = base
unset_all (Values.cons (Value.text key) keys) base =
    unset_all keys (unset_path (split_path key) base)
unset_all (Values.cons _ keys) base = unset_all keys base

-- `Object.assign(base, patch)`
unfoldable pub assign : Fields → Fields → Fields
assign Fields.end base = base
assign (Fields.field key value entries) base = assign entries (define_field key value base)

unfoldable pub set_value : Value → Fields → Fields
unfolding set_all
set_value (Value.object entries) base = set_all entries base
set_value _ base = base

unfoldable pub unset_value : Value → Fields → Fields
unfolding unset_all
unset_value (Value.array keys) base = unset_all keys base
unset_value _ base = base

unfoldable pub patch_fields : Fields → Fields → Fields
unfolding set_value unset_value assign
patch_fields patch base =
    let patched =
      unset_value (get_field "$unset" patch) (set_value (get_field "$set" patch) base) in
    if not (has_field "$set" patch) && not (has_field "$unset" patch)
    then assign patch patched
    else patched

-- applyPatch
unfoldable pub apply_patch : Value → Value → Value
unfolding patch_fields fields_of
apply_patch current (Value.object patch) = Value.object (patch_fields patch (fields_of current))
apply_patch current _ = Value.object (fields_of current)
