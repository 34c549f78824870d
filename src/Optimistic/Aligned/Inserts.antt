-- ===== src/Optimistic/Aligned/Inserts.antt =====
-- Inserting into the arrays of a family of client/optimistic.ts keeps them aligned.
use sync_resource.Shared.{
  ℕ, suc, ◌+◌, ◌≤◌, ◌<◌, String, ◌≡◌, refl, ap, Bool, false, not, ◌&&◌, ◌||◌, Option, none, some,
  List, [], ◌∷◌, arith, inl, inr, length, leb, eqb, insert_at, is_some, length-insert_at,
  length-drop_last, Bool-cases, ◌==◌,
}
use sync_resource.Js.{Value}
use sync_resource.Optimistic.Types.{PageMeta, Family, Tables, Host, Reconcile}
use sync_resource.Optimistic.Order.{find_insert_index}
use sync_resource.Optimistic.Window.{
  page_total, all_realtime, grow_last, set_realtime_pages, shrink_page,
}
use sync_resource.Optimistic.Changes.{
  matches, last_complete, add_to_empty, insert_sorted, add_to_window, add_matching, no_pages,
  add_with_family, append_to_page,
}

pub record IsAligned (f : Family) : Type 0 where
  pub items : length f.items ≡ length f.ids
  pub pages : page_total f.pages ≡ length f.ids

page_total-grow_last :
    (n : ℕ) (ps : List PageMeta)
    → no_pages ps ≡ false
    → page_total (grow_last n ps) ≡ page_total ps + n
unfolding grow_last page_total no_pages
page_total-grow_last n [] h = cc
page_total-grow_last n (p ∷ []) h = omega arith
page_total-grow_last n (p ∷ q ∷ ps) h = omega (arith, page_total-grow_last n (q ∷ ps) refl)

page_total-set_realtime :
    (f : Family) (n : ℕ)
    → no_pages f.pages ≡ false
    → page_total (set_realtime_pages f n).pages ≡ page_total f.pages + n
unfolding set_realtime_pages
page_total-set_realtime f n h = ground (arith, page_total-grow_last n f.pages h)

-- The page that owns the index gives one up; the pages after it, and those before, keep theirs.
page_total-shrink_after :
    (index start : ℕ) (ps : List PageMeta)
    → index < start
    → page_total (shrink_page index start ps) ≡ page_total ps
unfolding shrink_page page_total
page_total-shrink_after index start [] h = refl
page_total-shrink_after index start (p ∷ ps) h =
    ground (arith, page_total-shrink_after index (start + p.count) ps)

pub page_total-shrink_page :
    (index start : ℕ) (ps : List PageMeta)
    → start ≤ index
    → index < start + page_total ps
    → suc (page_total (shrink_page index start ps)) ≡ page_total ps
unfolding shrink_page page_total
page_total-shrink_page index start [] lo hi = absurd (omega arith)
page_total-shrink_page index start (p ∷ ps) lo hi = ground (
  arith,
  page_total-shrink_page index (start + p.count) ps,
  page_total-shrink_after index (start + p.count) ps,
)

pub set_realtime-IsAligned :
    (f : Family) (n : ℕ)
    → no_pages f.pages ≡ false
    → length f.items ≡ length f.ids
    → page_total f.pages + n ≡ length f.ids
    → IsAligned (set_realtime_pages f n)
unfolding set_realtime_pages
set_realtime-IsAligned f n some_page items pages =
    elim (Bool-cases (eqb n 0 && all_realtime f.pages)) [
      | inl settled ↦ rw settled (record { items = items; pages = ground arith })
      | inr other ↦ rw other (record {
        items = items;
        pages = omega (arith, page_total-grow_last n f.pages some_page);
      })
    ]

insert_sorted-IsAligned :
    (reconcile : Reconcile) (f : Family) (complete : Bool) (index : ℕ) (id : String) (item : Value)
    (t : Tables)
    → no_pages f.pages ≡ false
    → IsAligned f
    → IsAligned (insert_sorted reconcile f complete index id item t).0
unfolding insert_sorted
insert_sorted-IsAligned reconcile f complete index id item t some_page h =
    let ids = insert_at index id f.ids in
    let items = insert_at index item f.items in
    let grown = length-insert_at index id f.ids in
    let grown_items = length-insert_at index item f.items in
    elim (Bool-cases (not complete && not reconcile.sorted_placement)) [
      | inl full ↦ rw full (
          set_realtime-IsAligned _ 0 some_page
            (omega
              (arith, length-drop_last ids, length-drop_last items, grown, grown_items, h.items))
            (omega (arith, length-drop_last ids, grown, h.pages)))
      | inr room ↦ rw room (
          set_realtime-IsAligned _ 1 some_page (omega (arith, grown, grown_items, h.items))
            (omega (arith, grown, h.pages)))
    ]

add_to_empty-IsAligned :
    (f : Family) (pages : List PageMeta) (id : String) (item : Value) (t : Tables)
    → IsAligned f
    → IsAligned (add_to_empty f pages id item t).0
unfolding add_to_empty page_total
add_to_empty-IsAligned f [] id item t h = h
add_to_empty-IsAligned f (p ∷ q ∷ ps) id item t h = h
add_to_empty-IsAligned f (p ∷ []) id item t h = ground arith

add_matching-IsAligned :
    (host : Host) (reconcile : Reconcile) (f : Family) (ids : List String) (id : String)
    (item : Value) (t : Tables)
    → no_pages f.pages ≡ false
    → IsAligned f
    → IsAligned (add_matching host reconcile f ids id item t).0
unfolding add_matching add_to_window
add_matching-IsAligned host reconcile f [] id item t some_page h =
    add_to_empty-IsAligned f f.pages id item t h
add_matching-IsAligned host reconcile f (_ ∷ _) id item t some_page h =
    let index = find_insert_index host reconcile.compare f.ids f.items item id in
    elim (Bool-cases (is_some reconcile.compare)) [
      | inr free ↦ rw free h
      | inl ordered ↦
          rw ordered (elim (Bool-cases (not (last_complete f.pages) && leb (length f.ids) index)) [
            | inl past ↦ rw past h
            | inr inside ↦ rw inside (
                insert_sorted-IsAligned reconcile f (last_complete f.pages) index id item t
                  some_page h)
          ])
    ]

pub add_with_family-IsAligned :
    (host : Host) (reconcile : Reconcile) (f : Family) (id : String) (item : Value) (t : Tables)
    → IsAligned f
    → IsAligned (add_with_family host reconcile f id item t).0
unfolding add_with_family
add_with_family-IsAligned host reconcile f id item t h =
    elim (Bool-cases (no_pages f.pages || not (matches reconcile item f.query))) [
      | inl skipped ↦ rw skipped h
      | inr wanted ↦
          rw wanted (add_matching-IsAligned host reconcile f f.ids id item t (ground arith) h)
    ]

pub append_to_page-IsAligned :
    (active : Option String) (f : Family) (id : String) (item : Value) (t : Tables)
    (pages : List PageMeta)
    → f.pages ≡ pages
    → IsAligned f
    → IsAligned (append_to_page active f pages id item t).0
unfolding append_to_page page_total
append_to_page-IsAligned active f id item t [] e h = h
append_to_page-IsAligned none f id item t (first ∷ rest) e h = h
append_to_page-IsAligned (some key) f id item t (first ∷ rest) e h =
    let total = ap page_total e in
    let grown = length-insert_at first.count id f.ids in
    let grown_items = length-insert_at first.count item f.items in
    elim (Bool-cases (key == f.key)) [
      | inl own ↦ rw own (record {
        items = omega (arith, grown, grown_items, h.items);
        pages = omega (arith, grown, total, h.pages);
      })
      | inr other ↦ rw other h
    ]
