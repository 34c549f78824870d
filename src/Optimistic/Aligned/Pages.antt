-- ===== src/Optimistic/Aligned/Pages.antt =====
-- A page of client/optimistic.ts and the arrays of its family.
use sync_resource.Shared.{
  ℕ, zero, suc, ◌+◌, ◌≤◌, ◌<◌, String, ◌≡◌, refl, sym, false, not, ◌&&◌, Option, none, some, List,
  [], ◌∷◌, ◌++◌, arith, inl, inr, length, take, drop, is_some, length-append, length-take,
  length-drop, Bool-cases, Option-cases, ◌==◌,
}
use sync_resource.Js.{Value}
use sync_resource.Optimistic.Types.{PageMeta, Family}
use sync_resource.Optimistic.Window.{page_total}
use sync_resource.Optimistic.Families.{is_key}
use sync_resource.Optimistic.Pages.{
  Batch, Slot, find_page, page_count, set_page, drop_loaded, replace_range, slot_of, replace_start,
  replace_end, has_cursor, place_page, fresh_entries, load_page,
}
use sync_resource.Optimistic.Aligned.Inserts.{IsAligned}

page_total-append : (ps qs : List PageMeta) → page_total (ps ++ qs) ≡ page_total ps + page_total qs
unfolding page_total
page_total-append [] qs = omega arith
page_total-append (p ∷ ps) qs = omega (arith, page_total-append ps qs)

pub page_total-take :
    (i : ℕ) (ps : List PageMeta) → page_total (take i ps) + page_count ps i ≤ page_total ps
unfolding page_total page_count
page_total-take zero [] = omega arith
page_total-take zero (p ∷ ps) = omega arith
page_total-take (suc i) [] = omega arith
page_total-take (suc i) (p ∷ ps) = omega (arith, page_total-take i ps)

page_total-set_page :
    (ps : List PageMeta) (i : ℕ) (page : PageMeta)
    → i < length ps
    → page_total (set_page ps i page) + page_count ps i ≡ page_total ps + page.count
unfolding page_total page_count set_page
page_total-set_page [] i page h = absurd (omega arith)
page_total-set_page (p ∷ ps) zero page h = omega arith
page_total-set_page (p ∷ ps) (suc i) page h =
    omega (arith, page_total-set_page ps i page (omega arith))

find_page-lt-length :
    (cursor : String) (ps : List PageMeta) (i : ℕ) → find_page cursor ps ≡ some i → i < length ps
unfolding find_page
find_page-lt-length cursor [] i e = cc
find_page-lt-length cursor (p ∷ ps) i e = elim (Bool-cases (is_key p.cursor_in cursor)) [
  | inl here ↦ let first : some zero ≡ some i = rw here at e in ground arith
  | inr other ↦ elim (Option-cases (find_page cursor ps)) [
    | inl gone ↦ cc (rw (other, gone) at e)
    | inr (k, there) ↦
        let next : some (suc k) ≡ some i = rw (other, there) at e in
        ground (arith, find_page-lt-length cursor ps k there)
  ]
]

-- The page that a request loads again is one of the family's pages.
abbrev SlotFits : Slot → List PageMeta → Type 0
SlotFits (Slot.again cursor i) pages = i < length pages
SlotFits _ pages = Unit {0}

pub slot_of-SlotFits :
    (cursor : Option String) (pages : List PageMeta) → SlotFits (slot_of cursor pages) pages
unfolding slot_of
slot_of-SlotFits none pages = tt
slot_of-SlotFits (some cursor) pages = elim (Bool-cases (cursor == "")) [
  | inl unset ↦ rw unset tt
  | inr set ↦ rw set (elim (Option-cases (find_page cursor pages)) [
    | inl e ↦ rw (e, slot_of) tt
    | inr (i, e) ↦ rw (e, slot_of) (find_page-lt-length cursor pages i e)
  ])
]

length-replace_range {ℓ} :
    {A : Type ℓ} (xs : List A) (start end : ℕ) (values : List A)
    → start ≤ end
    → end ≤ length xs
    → length (replace_range xs start end values) + end ≡ length xs + (start + length values)
length-replace_range xs start end values lo hi = omega (
  arith,
  length-append (take start xs) (values ++ drop end xs),
  length-append values (drop end xs),
  length-take start xs,
  length-drop end xs,
)

length-drop_loaded :
    (loaded ids : List String) (values : List Value)
    → length ids ≡ length values
    → length (drop_loaded loaded ids values).1 ≡ length (drop_loaded loaded ids values).0
unfolding drop_loaded
length-drop_loaded loaded [] [] h = refl
length-drop_loaded loaded [] (v ∷ values) h = refl
length-drop_loaded loaded (id ∷ ids) [] h = refl
length-drop_loaded loaded (id ∷ ids) (v ∷ values) h =
    ground (arith, length-drop_loaded loaded ids values)

pub length-fresh_entries :
    (slot : Slot) (f : Family) (batch : Batch)
    → length batch.ids ≡ length batch.values
    → length (fresh_entries slot f batch).1 ≡ length (fresh_entries slot f batch).0
unfolding fresh_entries
length-fresh_entries slot f batch h = elim (Bool-cases (has_cursor slot && batch.seen)) [
  | inl e ↦ rw e (length-drop_loaded _ batch.ids batch.values h)
  | inr e ↦ rw e (sym h)
]

pub load_page-IsAligned :
    (slot : Slot) (cursor_in page_cursor : Option String) (f : Family) (ids : List String)
    (values : List Value)
    → SlotFits slot f.pages
    → length values ≡ length ids
    → IsAligned f
    → IsAligned (load_page slot cursor_in page_cursor f ids values)
unfolding load_page replace_start replace_end place_page page_total
load_page-IsAligned Slot.first cursor_in page_cursor f ids values fits same h = record {
  items = omega (
    arith,
    same,
    h.items,
    length-replace_range f.ids 0 (length f.ids) ids (omega arith) (omega arith),
    length-replace_range f.items 0 (length f.ids) values (omega arith) (omega (arith, h.items)),
  );
  pages =
      omega (arith, length-replace_range f.ids 0 (length f.ids) ids (omega arith) (omega arith));
}
load_page-IsAligned (Slot.later cursor) cursor_in page_cursor f ids values fits same h =
    let n = length f.ids in
    record {
      items = omega (
        arith,
        same,
        h.items,
        length-replace_range f.ids n n ids (omega arith) (omega arith),
        length-replace_range f.items n n values (omega arith) (omega (arith, h.items)),
      );
      pages = omega (
        arith,
        h.pages,
        length-replace_range f.ids n n ids (omega arith) (omega arith),
        page_total-append f.pages (
            record {
              cursor_in = cursor_in;
              cursor_out = page_cursor;
              count = length ids;
              complete = not (is_some page_cursor);
              stale = false;
              source = _;
            }
            ∷ []),
      );
    }
load_page-IsAligned (Slot.again cursor i) cursor_in page_cursor f ids values fits same h =
    let start = page_total (take i f.pages) in
    let end = start + page_count f.pages i in
    let range : end ≤ length f.ids = omega (arith, page_total-take i f.pages, h.pages) in
    record {
      items = omega (
        arith,
        same,
        h.items,
        length-replace_range f.ids start end ids (omega arith) range,
        length-replace_range f.items start end values (omega arith) (omega (arith, range, h.items)),
      );
      pages = omega (
        arith,
        h.pages,
        length-replace_range f.ids start end ids (omega arith) range,
        page_total-set_page f.pages i
            (record {
              cursor_in = cursor_in;
              cursor_out = page_cursor;
              count = length ids;
              complete = not (is_some page_cursor);
              stale = false;
              source = _;
            })
            fits,
      );
    }
