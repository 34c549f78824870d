-- ===== src/Optimistic/Ordered/Loads.antt =====
-- A page that client/optimistic.ts loads leaves the flag `sorted` of every family truthful.
use native.Mathlib.Decide.{dec_lt}
use sync_resource.Shared.{
  ℕ, suc, ◌≤◌, ◌<◌, String, ◌≡◌, refl, Bool, true, false, Option, none, some, List, ◌++◌, arith,
  inl, inr, length, drop, Bool-cases,
}
use sync_resource.Shared.Edits.{get_or-take_append}
use sync_resource.Shared.JsMap.{JsMap, get}
use sync_resource.Js.{Value, property, read_string}
use sync_resource.Optimistic.Types.{Family, State, Host, Reconcile}
use sync_resource.Optimistic.Order.{Comparator}
use sync_resource.Optimistic.Order.Sorted.{Le, item_at, is_sorted_from_iff}
use sync_resource.Optimistic.Families.{new_family, get_or_create_family}
use sync_resource.Optimistic.QueryKey.{query_family_key, query_without_cursor}
use sync_resource.Optimistic.Pages.{
  Slot, collect_items, slot_of, replace_start, replace_end, has_cursor, fresh_entries, load_page,
  refresh_items, refresh_family, finish_page, fill_family, fill_if_there, apply_page_items,
}
use sync_resource.Optimistic.Counts.Pages.{length-collect_items}
use sync_resource.Optimistic.Every.{page_families-Every, get_or_create-Every}
use sync_resource.Optimistic.Every.Maps.{Every, get-Every}
use sync_resource.Optimistic.Aligned.Inserts.{IsAligned}
use sync_resource.Optimistic.Aligned.Loads.{length-refresh_items, new_family-IsAligned}
use sync_resource.Optimistic.Aligned.Pages.{
  page_total-take, load_page-IsAligned, slot_of-SlotFits, length-fresh_entries,
}
use sync_resource.Optimistic.Ordered.Families.{IsOrdered}

-- A family whose flag is set is in order below an index.
record IsHalfOrdered (compare : Comparator) (start : ℕ) (f : Family) : Type 0 where
  items : length f.items ≡ length f.ids
  below :
      f.sorted ≡ true
      → (i : ℕ) → suc i < start
      → suc i < length f.items
      → Le compare (item_at f.items i) (item_at f.items (suc i))

module _ (host : Host) (reconcile : Reconcile) where
  refresh-HalfOrdered :
      (start : ℕ) (base : JsMap Value) (f : Family)
      → IsHalfOrdered reconcile.compare start f
      → IsHalfOrdered reconcile.compare start (refresh_family host reconcile base f)
  unfolding refresh_family
  refresh-HalfOrdered start base f h =
      let items = (refresh_items host base f.ids f.items).0 in
      elim (Bool-cases (refresh_items host base f.ids f.items).1) [
        | inr same ↦ rw same h
        | inl changed ↦ rw changed (record {
          items = omega (arith, length-refresh_items host reconcile base f.ids f.items, h.items);
          below = λ s i lt inside.
              (is_sorted_from_iff reconcile.compare items 0).0 (ground (arith, s)) i (omega arith)
                inside;
        })
      ]

  refresh-IsOrdered :
      (base : JsMap Value) (f : Family)
      → IsOrdered reconcile.compare f
      → IsOrdered reconcile.compare (refresh_family host reconcile base f)
  unfolding refresh_family
  refresh-IsOrdered base f h =
      let items = (refresh_items host base f.ids f.items).0 in
      elim (Bool-cases (refresh_items host base f.ids f.items).1) [
        | inr same ↦ rw same h
        | inl changed ↦ rw changed (record {
          items = omega (arith, length-refresh_items host reconcile base f.ids f.items, h.items);
          truthful = λ s. (is_sorted_from_iff reconcile.compare items 0).0 (ground (arith, s));
        })
      ]

  -- The last writes: the flag is set only where the rest of the items is in order too.
  finish-IsOrdered :
      (slot : Slot) (start : ℕ) (meta : Value) (f : Family)
      → (has_cursor slot ≡ false → start ≡ 0)
      → IsHalfOrdered reconcile.compare start f
      → IsOrdered reconcile.compare (finish_page slot start meta reconcile f)
  unfolding finish_page
  finish-IsOrdered slot start meta f first h = record {
    items = h.items;
    truthful = λ s i lo inside.
        let rest = (is_sorted_from_iff reconcile.compare f.items start).0 (ground (arith, s)) in
        elim (dec_lt (suc i) start) [
          | no far ↦ rest i (omega arith) inside
          | yes low ↦ elim (Bool-cases (has_cursor slot)) [
            | inl later ↦ h.below (ground (arith, s, later)) i low inside
            | inr whole ↦ absurd (omega (arith, first whole))
          ]
        ];
  }

load_page-HalfOrdered :
    (compare : Comparator) (slot : Slot) (cursor_in page_cursor : Option String) (f : Family)
    (ids : List String) (values : List Value)
    → replace_start slot f ≤ length f.items
    → IsAligned (load_page slot cursor_in page_cursor f ids values)
    → IsOrdered compare f
    → IsHalfOrdered compare
        (replace_start slot f)
        (load_page slot cursor_in page_cursor f ids values)
unfolding load_page
load_page-HalfOrdered compare slot cursor_in page_cursor f ids values inside aligned h = record {
  items = aligned.items;
  below = λ s i lt _.
      let d = Value.undefined in
      let start = replace_start slot f in
      rw
        (
          get_or-take_append d start i f.items (values ++ drop (replace_end slot f) f.items)
              (omega arith) (omega arith),
          get_or-take_append d start (suc i) f.items (values ++ drop (replace_end slot f) f.items)
              lt (omega arith),
        )
        (h.truthful s i (omega arith) (omega arith));
}

replace_start-le-length :
    (slot : Slot) (f : Family) → IsAligned f → replace_start slot f ≤ length f.items
unfolding replace_start
replace_start-le-length Slot.first f h = omega arith
replace_start-le-length (Slot.again cursor i) f h =
    omega (arith, page_total-take i f.pages, h.pages, h.items)
replace_start-le-length (Slot.later cursor) f h = omega (arith, h.items)

replace_start-first :
    (slot : Slot) (f : Family) → has_cursor slot ≡ false → replace_start slot f ≡ 0
unfolding replace_start has_cursor
replace_start-first Slot.first f e = refl
replace_start-first (Slot.again cursor i) f e = cc
replace_start-first (Slot.later cursor) f e = cc

module _ (host : Host) (reconcile : Reconcile) where
  fill_family-Ordered :
      (s : State) (key : String) (f : Family) (items : List Value)
      (cursor_in page_cursor : Option String) (meta : Value)
      → get key s.families ≡ some f
      → Every IsAligned s.families
      → Every (IsOrdered reconcile.compare) s.families
      → Every
          (IsOrdered reconcile.compare)
          (fill_family host reconcile s key f items cursor_in page_cursor meta).families
  unfolding fill_family
  fill_family-Ordered s key f items cursor_in page_cursor meta e aligned h =
      let batch = collect_items reconcile items s.base_items false in
      let slot = slot_of cursor_in f.pages in
      let (ids, values) = fresh_entries slot f batch in
      let start = replace_start slot f in
      let placed = get-Every IsAligned key s.families f aligned e in
      let half =
        load_page-HalfOrdered reconcile.compare slot cursor_in page_cursor f ids values
          (replace_start-le-length slot f placed)
          (load_page-IsAligned slot cursor_in page_cursor f ids values
            (slot_of-SlotFits cursor_in f.pages)
            (length-fresh_entries slot f batch
              (length-collect_items reconcile items s.base_items false))
            placed)
          (get-Every (IsOrdered reconcile.compare) key s.families f h e) in
      let finish = λ (g : Family).
        finish-IsOrdered host reconcile slot start meta g (replace_start-first slot f) in
      page_families-Every (IsOrdered reconcile.compare) host reconcile key slot _ meta start
        batch.seen _ s.families f e (finish _ half)
        (finish _ (refresh-HalfOrdered host reconcile start _ _ half))
        (refresh-IsOrdered host reconcile _) h

  fill_if_there-Ordered :
      (s : State) (key : String) (there : Option Family) (items : List Value)
      (cursor_in page_cursor : Option String) (meta : Value)
      → get key s.families ≡ there
      → Every IsAligned s.families
      → Every (IsOrdered reconcile.compare) s.families
      → Every
          (IsOrdered reconcile.compare)
          (fill_if_there host reconcile s key there items cursor_in page_cursor meta).families
  unfolding fill_if_there
  fill_if_there-Ordered s key none items cursor_in page_cursor meta e aligned h = h
  fill_if_there-Ordered s key (some f) items cursor_in page_cursor meta e aligned h =
      fill_family-Ordered s key f items cursor_in page_cursor meta e aligned h

  new_family-IsOrdered :
      (key : String) (query : Value) → IsOrdered reconcile.compare (new_family key query)
  new_family-IsOrdered key query = record {
    items = refl;
    truthful = λ s i lo hi. absurd (omega arith);
  }

  -- A page that is read leaves every flag truthful, whatever order the server sent the items in.
  pub apply_page_items-Ordered :
      (s : State) (items : List Value) (query : Value) (page_cursor : Option String) (meta : Value)
      (activate : Bool)
      → Every IsAligned s.families
      → Every (IsOrdered reconcile.compare) s.families
      → Every
          (IsOrdered reconcile.compare)
          (apply_page_items host reconcile s items query page_cursor meta activate).families
  unfolding apply_page_items
  apply_page_items-Ordered s items query page_cursor meta activate aligned h =
      let key = query_family_key host query in
      let family_query = query_without_cursor query in
      let made = get_or_create_family s key family_query in
      let filled =
        fill_if_there-Ordered made key (get key made.families) items
          (read_string (property "cursor" query)) page_cursor meta refl
          (get_or_create-Every IsAligned s key family_query
            (new_family-IsAligned host reconcile key family_query)
            (λ f a. record { items = a.items; pages = a.pages }) aligned)
          (get_or_create-Every (IsOrdered reconcile.compare) s key family_query
            (new_family-IsOrdered key family_query)
            (λ f a. record { items = a.items; truthful = a.truthful }) h) in
      elim (Bool-cases activate) [ inl chosen ↦ rw chosen filled | inr left ↦ rw left filled ]
