-- ===== src/Js.antt =====
-- The values of shared/guards.ts: what JSON and a caller can hand to the client. Numbers are the
-- natural ones; an object keeps its own keys in insertion order.
use sync_resource.Shared.{
  ℕ, zero, String, Bool, true, false, not, Option, none, some, List, [], ◌∷◌, if◌then◌else◌, ◌==◌,
}

mutual
  pub data Value : Type 0 where
    undefined null : Value
    boolean : Bool → Value
    number : ℕ → Value
    text : String → Value
    array : Values → Value
    object : Fields → Value

  pub data Values : Type 0 where
    nil : Values
    cons : Value → Values → Values

  pub data Fields : Type 0 where
    end : Fields
    field : String → Value → Fields → Fields

-- `if (value)`
unfoldable pub truthy : Value → Bool
truthy undefined = false
truthy null = false
truthy (boolean b) = b
truthy (number zero) = false
truthy (text s) = not (s == "")
truthy _ = true

-- `if (value)` for an optional string
unfoldable pub is_set : Option String → Bool
is_set none = false
is_set (some s) = not (s == "")

-- `left ?? right`
unfoldable pub coalesce : Value → Value → Value
coalesce undefined right = right
coalesce null right = right
coalesce left _ = left

unfoldable pub is_record : Value → Bool
is_record (object fs) = true
is_record _ = false

unfoldable pub is_string : Value → Bool
is_string (text s) = true
is_string _ = false

unfoldable pub read_string : Value → Option String
read_string (text s) = some s
read_string _ = none

unfoldable pub items_of : Values → List Value
items_of nil = []
items_of (cons v vs) = v ∷ items_of vs

unfoldable pub get_field : String → Fields → Value
get_field k end = undefined
get_field k (field j v fs) = if j == k then v else get_field k fs

-- `key in object`
unfoldable pub has_field : String → Fields → Bool
has_field k end = false
has_field k (field j v fs) = if j == k then true else has_field k fs

-- `Object.defineProperty`: a key that is there keeps its place.
unfoldable pub define_field : String → Value → Fields → Fields
define_field k v end = field k v end
define_field k v (field j w fs) = if j == k then field j v fs else field j w (define_field k v fs)

-- `Reflect.deleteProperty`
unfoldable pub delete_field : String → Fields → Fields
delete_field k end = end
delete_field k (field j w fs) =
    let rest = delete_field k fs in if j == k then rest else field j w rest

-- `value.key`, `undefined` where the value is no object
unfoldable pub property : String → Value → Value
unfolding get_field
property k (object fs) = get_field k fs
property k _ = undefined
