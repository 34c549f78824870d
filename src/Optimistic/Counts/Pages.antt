-- ===== src/Optimistic/Counts/Pages.antt =====
-- A loaded page keeps the tables exact: what it retains, what it drops as loaded, what it releases.
use Prim.Native.Nat.add
use sync_resource.Shared.{
  drop-nil, ℕ, zero, suc, ◌+◌, ◌-◌, ◌≤◌, String, ◌≡◌, refl, sym, ap, ◌∙◌, Bool, false, ◌&&◌, ◌||◌,
  List, [], ◌∷◌, ◌++◌, arith, eq_iff, inl, inr, length, take, drop, ltb, eqb, or_default,
  Bool-cases, Option-cases, if◌then◌else◌,
}
use sync_resource.Shared.JsMap.{JsMap, get, put, has, get-put}
use sync_resource.Js.{Value}
use sync_resource.Optimistic.Types.{Family, Tables, Reconcile}
use sync_resource.Optimistic.Refs.{retain, retain_all}
use sync_resource.Optimistic.Pages.{
  Batch, Slot, named_id, collect_items, contains, drop_loaded, replace_start, replace_end,
  has_cursor, fresh_entries, page_tables, replaced_ids,
}
use sync_resource.Optimistic.Occurs.{hit, occurs, occurs-append}
use sync_resource.Optimistic.Counts.{Tracks, refs_of, release_all-Tracks}

pub occurs-take-drop :
    (j : String) (n : ℕ) (xs : List String)
    → occurs j xs ≡ occurs j (take n xs) + occurs j (drop n xs)
unfolding occurs
occurs-take-drop j zero xs = omega arith
occurs-take-drop j (suc n) [] = refl
occurs-take-drop j (suc n) (x ∷ xs) = omega (arith, occurs-take-drop j n xs)

drop-drop {ℓ} : {A : Type ℓ} (m n : ℕ) (xs : List A) → drop m (drop n xs) ≡ drop (n + m) xs
drop-drop m zero xs = ap (λ k. drop k xs) (omega arith)
drop-drop m (suc n) [] = drop-nil m ∙ sym (drop-nil (suc n + m))
drop-drop m (suc n) (x ∷ xs) = rw add.suc (drop-drop m n xs)

counted-retain_all :
    (ids : List String) (j : String) (n : ℕ) (t : Tables)
    → get j t.family_refs ≡ refs_of n
    → get j (retain_all t ids).family_refs ≡ refs_of (occurs j ids + n)
unfolding retain_all occurs
counted-retain_all [] j n t h = rw h (ap refs_of (omega arith))
counted-retain_all (id ∷ ids) j n t h =
    counted-retain_all ids j (hit id j + n) (retain t id) (
      ground
        (arith, get-put id j (or_default (get id t.family_refs) 0 + 1) t.family_refs, eq_iff id j))
    ∙ ap refs_of (omega arith)

base-retain_all : (ids : List String) (t : Tables) → (retain_all t ids).base_items ≡ t.base_items
unfolding retain_all
base-retain_all [] t = refl
base-retain_all (id ∷ ids) t = base-retain_all ids (retain t id)

-- The loop stores an item for exactly the ids that it collects.
pub has-collect_items :
    (reconcile : Reconcile) (items : List Value) (base : JsMap Value) (seen : Bool) (j : String)
    → let batch = collect_items reconcile items base seen in
      has j batch.base ≡ (has j base || ltb 0 (occurs j batch.ids))
unfolding collect_items occurs
has-collect_items reconcile [] base seen j = ground arith
has-collect_items reconcile (item ∷ items) base seen j =
    elim (Option-cases (named_id reconcile item)) [
      | inl e ↦ rw (e, collect_items) (has-collect_items reconcile items base seen j)
      | inr (id, e) ↦
          rw (e, collect_items)
            (ground (
              arith,
              has-collect_items reconcile items (put id item base) (seen || has id base) j,
              get-put id j item base,
            ))
    ]

pub length-collect_items :
    (reconcile : Reconcile) (items : List Value) (base : JsMap Value) (seen : Bool)
    → let batch = collect_items reconcile items base seen in length batch.ids ≡ length batch.values
unfolding collect_items
length-collect_items reconcile [] base seen = refl
length-collect_items reconcile (item ∷ items) base seen =
    elim (Option-cases (named_id reconcile item)) [
      | inl e ↦ rw (e, collect_items) (length-collect_items reconcile items base seen)
      | inr (id, e) ↦
          rw (e, collect_items)
            (ap suc (length-collect_items reconcile items (put id item base) (seen || has id base)))
    ]

contains-occurs : (id : String) (ids : List String) → contains id ids ≡ ltb 0 (occurs id ids)
unfolding contains occurs
contains-occurs id [] = refl
contains-occurs id (j ∷ ids) = ground (arith, contains-occurs id ids)

-- The filters keep an id as often as it stands, unless it is loaded.
pub occurs-drop_loaded :
    (j : String) (loaded ids : List String) (values : List Value)
    → length ids ≡ length values
    → occurs j (drop_loaded loaded ids values).0
      ≡ (if ltb 0 (occurs j loaded) then 0 else occurs j ids)
unfolding drop_loaded occurs
occurs-drop_loaded j loaded [] [] h = ground arith
occurs-drop_loaded j loaded [] (v ∷ values) h = absurd (omega arith)
occurs-drop_loaded j loaded (id ∷ ids) [] h = absurd (omega arith)
occurs-drop_loaded j loaded (id ∷ ids) (v ∷ values) h = ground (
  arith,
  occurs-drop_loaded j loaded ids values (omega arith),
  contains-occurs id loaded,
  eq_iff id j,
)

-- The ids of the family outside the range that the page replaces.
abbrev pub kept_ids : Slot → Family → List String
kept_ids slot f = take (replace_start slot f) f.ids ++ drop (replace_end slot f) f.ids

replace_start-le-end : (slot : Slot) (f : Family) → replace_start slot f ≤ replace_end slot f
unfolding replace_start replace_end
replace_start-le-end Slot.first f = omega arith
replace_start-le-end (Slot.again cursor i) f = omega arith
replace_start-le-end (Slot.later cursor) f = omega arith

-- The range and what is kept are the whole family.
pub occurs_split :
    (j : String) (slot : Slot) (f : Family)
    → occurs j f.ids ≡ occurs j (replaced_ids slot f) + occurs j (kept_ids slot f)
unfolding replaced_ids
occurs_split j slot f =
    let start = replace_start slot f in
    let width = replace_end slot f - start in
    let reach : drop width (drop start f.ids) ≡ drop (replace_end slot f) f.ids =
      drop-drop width start f.ids
      ∙ ap (λ k. drop k f.ids) (omega (arith, replace_start-le-end slot f)) in
    omega (
      arith,
      occurs-take-drop j start f.ids,
      occurs-take-drop j width (drop start f.ids),
      ap (occurs j) reach,
      occurs-append j (take start f.ids) (drop (replace_end slot f) f.ids),
    )

module _ (slot : Slot) (f : Family) (batch : Batch)
    (aligned : length batch.ids ≡ length batch.values) where
  -- An id of the page is placed, or it is one of those that the family keeps.
  pub occurs-fresh_entries :
      (j : String)
      → (occurs j (fresh_entries slot f batch).0 ≤ occurs j batch.ids)
        × ((ltb 0 (occurs j batch.ids)
              && eqb (occurs j (fresh_entries slot f batch).0 + occurs j (kept_ids slot f)) 0)
            ≡ false)
  unfolding fresh_entries
  occurs-fresh_entries j =
      let dropped = occurs-drop_loaded j (kept_ids slot f) batch.ids batch.values aligned in
      elim (Bool-cases (has_cursor slot && batch.seen)) [
        | inl filtered ↦ rw filtered (ground (arith, dropped), ground (arith, dropped))
        | inr whole ↦ rw whole (ground arith, ground arith)
      ]

  -- After the page the family's places count for the ids that it placed and those that it kept.
  pub page_tables-Tracks :
      (j : String) (others : ℕ) (t : Tables)
      → has j batch.base ≡ (has j t.base_items || ltb 0 (occurs j batch.ids))
      → Tracks false j (occurs j f.ids + others) t
      → Tracks false j
          (occurs j (fresh_entries slot f batch).0 + (occurs j (kept_ids slot f) + others))
          (page_tables t batch (fresh_entries slot f batch).0 (replaced_ids slot f))
  unfolding page_tables
  page_tables-Tracks j others t stored h =
      let ids = (fresh_entries slot f batch).0 in
      let replaced = replaced_ids slot f in
      let kept : Tables = record t { base_items = batch.base } in
      let held = occurs j ids + (occurs j (kept_ids slot f) + others) in
      let places = occurs-fresh_entries j in
      let counts = counted-retain_all ids j (occurs j f.ids + others) kept h.counted in
      let base = base-retain_all ids kept in
      let split = occurs_split j slot f in
      release_all-Tracks false replaced j held (retain_all kept ids) (record {
        counted = counts ∙ ap refs_of (omega (arith, split));
        no_leak = rw base (ground (arith, stored, split, h.no_leak, places.1));
        present = rw base (ground (arith, stored, split, h.present, places.0));
      })
