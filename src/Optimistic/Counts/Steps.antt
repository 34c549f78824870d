-- ===== src/Optimistic/Counts/Steps.antt =====
-- Each operation on one family keeps the reference counts exact.
use sync_resource.Shared.{
  ℕ, ◌+◌, String, ◌≡◌, refl, sym, Bool, false, not, ◌&&◌, ◌||◌, Option, none, some, List, [], ◌∷◌,
  arith, inl, inr, ap, length, leb, eqb, is_some, Bool-cases, Option-cases, insert_at, remove_at,
  set, get_elem?, drop_last, get_last?, ◌==◌,
}
use sync_resource.Js.{Value}
use sync_resource.Optimistic.Types.{PageMeta, Family, Tables, Host, Reconcile}
use sync_resource.Optimistic.Order.{find_insert_index}
use sync_resource.Optimistic.Window.{index_of, set_loaded_item, set_realtime_pages, move_by_compare}
use sync_resource.Optimistic.Refs.{retain}
use sync_resource.Optimistic.Changes.{
  matches, last_complete, add_to_empty, insert_sorted, add_to_window, add_matching, no_pages,
  add_with_family, append_to_page, add_item, update_at, remove_entry, update_item, drop_item,
}
use sync_resource.Optimistic.Occurs.{
  hit, occurs, get_elem?-index_of, occurs-insert_at, occurs-drop_last, occurs-remove_at,
}
use sync_resource.Optimistic.Counts.{
  Tracks, Balances, recount, retain-Tracks, release_if_set-Tracks,
}

-- The result of a step on a family that holds the id `j` `m` times.
abbrev Held : Bool → String → ℕ → Family × Tables → Type 0
Held exempt j n r = Tracks exempt j (occurs j r.0.ids + n) r.1

pub ids-set_realtime_pages : (f : Family) (growth : ℕ) → (set_realtime_pages f growth).ids ≡ f.ids
unfolding set_realtime_pages
ids-set_realtime_pages f growth = ground arith

module _ (exempt : Bool) (j id : String) (named : (j == "") ≡ false)
    (fresh : ((id == j) && not exempt) ≡ false) where
  retained :
      (m k : ℕ) (t : Tables)
      → m ≡ hit id j + k
      → Tracks exempt j k t
      → Tracks exempt j m (retain t id)
  retained m k t e h = recount (sym e) (retain-Tracks exempt id j k t fresh h)

  add_to_empty-Tracks :
      (f : Family) (pages : List PageMeta) (item : Value) (t : Tables) (n : ℕ)
      → f.ids ≡ []
      → Tracks exempt j (occurs j f.ids + n) t
      → Held exempt j n (add_to_empty f pages id item t)
  unfolding add_to_empty occurs
  add_to_empty-Tracks f [] item t n e h = h
  add_to_empty-Tracks f (p ∷ q ∷ ps) item t n e h = h
  add_to_empty-Tracks f (p ∷ []) item t n e h = elim (Bool-cases (p.complete && not p.stale)) [
    | inl open_page ↦ rw open_page (retained _ _ t (omega (arith, ap (occurs j) e)) h)
    | inr closed ↦ rw closed h
  ]

  insert_sorted-Tracks :
      (reconcile : Reconcile) (f : Family) (complete : Bool) (index : ℕ) (item : Value) (t : Tables)
      (n : ℕ)
      → Tracks exempt j (occurs j f.ids + n) t
      → Held exempt j n (insert_sorted reconcile f complete index id item t)
  unfolding insert_sorted
  insert_sorted-Tracks reconcile f complete index item t n h =
      let grown = insert_at index id f.ids in
      let held =
        retained (occurs j grown + n) _ t (omega (arith, occurs-insert_at j id index f.ids)) h in
      elim (Bool-cases (not complete && not reconcile.sorted_placement)) [
        | inl full ↦
            rw (full, ids-set_realtime_pages)
              (release_if_set-Tracks exempt (get_last? grown) j (occurs j (drop_last grown) + n)
                (retain t id) named (recount (omega (arith, occurs-drop_last j grown)) held))
        | inr room ↦ rw (room, ids-set_realtime_pages) held
      ]

  add_to_window-Tracks :
      (host : Host) (reconcile : Reconcile) (f : Family) (pages : List PageMeta) (item : Value)
      (t : Tables) (n : ℕ)
      → Tracks exempt j (occurs j f.ids + n) t
      → Held exempt j n (add_to_window host reconcile f pages id item t)
  unfolding add_to_window
  add_to_window-Tracks host reconcile f pages item t n h =
      let index = find_insert_index host reconcile.compare f.ids f.items item id in
      elim (Bool-cases (not (last_complete pages) && leb (length f.ids) index)) [
        | inl past ↦ rw past h
        | inr inside ↦
            rw inside (insert_sorted-Tracks reconcile f (last_complete pages) index item t n h)
      ]

  add_matching-Tracks :
      (host : Host) (reconcile : Reconcile) (f : Family) (ids : List String) (item : Value)
      (t : Tables) (n : ℕ)
      → f.ids ≡ ids
      → Tracks exempt j (occurs j f.ids + n) t
      → Held exempt j n (add_matching host reconcile f ids id item t)
  unfolding add_matching
  add_matching-Tracks host reconcile f [] item t n e h = add_to_empty-Tracks f f.pages item t n e h
  add_matching-Tracks host reconcile f (_ ∷ _) item t n e h =
      elim (Bool-cases (is_some reconcile.compare)) [
        | inl ordered ↦ rw ordered (add_to_window-Tracks host reconcile f f.pages item t n h)
        | inr free ↦ rw free h
      ]

  pub add_with_family-Tracks :
      (host : Host) (reconcile : Reconcile) (f : Family) (item : Value) (t : Tables) (n : ℕ)
      → Tracks exempt j (occurs j f.ids + n) t
      → Held exempt j n (add_with_family host reconcile f id item t)
  unfolding add_with_family
  add_with_family-Tracks host reconcile f item t n h =
      elim (Bool-cases (no_pages f.pages || not (matches reconcile item f.query))) [
        | inl skipped ↦ rw skipped h
        | inr wanted ↦ rw wanted (add_matching-Tracks host reconcile f f.ids item t n refl h)
      ]

  append_to_page-Tracks :
      (active : Option String) (f : Family) (pages : List PageMeta) (item : Value) (t : Tables)
      (n : ℕ)
      → Tracks exempt j (occurs j f.ids + n) t
      → Held exempt j n (append_to_page active f pages id item t)
  unfolding append_to_page
  append_to_page-Tracks active f [] item t n h = h
  append_to_page-Tracks none f (first ∷ rest) item t n h = h
  append_to_page-Tracks (some key) f (first ∷ rest) item t n h = elim (Bool-cases (key == f.key)) [
    | inl own ↦ rw own (retained _ _ t (omega (arith, occurs-insert_at j id first.count f.ids)) h)
    | inr other ↦ rw other h
  ]

  pub add_item-Balances :
      (host : Host) (reconcile : Reconcile) (active : Option String) (append : Bool) (item : Value)
      → Balances exempt j (add_item host reconcile active append id item)
  unfolding add_item set_loaded_item
  add_item-Balances host reconcile active append item f t n h =
      elim (Option-cases (index_of id f.ids)) [
        | inr (index, e) ↦ rw (e, add_item) h
        | inl e ↦
            rw (e, add_item)
              (elim (Bool-cases append) [
                | inl own ↦ rw own (append_to_page-Tracks active f f.pages item t n h)
                | inr other ↦ rw other (add_with_family-Tracks host reconcile f item t n h)
              ])
      ]

module _ (host : Host) (reconcile : Reconcile) where
  ids-move_by_compare :
      (f : Family) (index : ℕ) (item : Value) (id j : String)
      → occurs j (move_by_compare host reconcile f index item id).ids
        ≡ hit id j + occurs j (remove_at index f.ids)
  unfolding move_by_compare
  ids-move_by_compare f index item id j =
      let ids = remove_at index f.ids in
      let items = remove_at index f.items in
      let next = find_insert_index host reconcile.compare ids items item id in
      elim (Bool-cases (eqb next index)) [
        | inl same ↦ rw (same, ids-set_realtime_pages) (occurs-insert_at j id next ids)
        | inr moved ↦ rw (moved, ids-set_realtime_pages) (occurs-insert_at j id next ids)
      ]

  pub occurs-update_at :
      (f : Family) (index : ℕ) (item : Value) (id j : String)
      → get_elem? f.ids index ≡ some id
      → occurs j (update_at host reconcile f index item id).ids ≡ occurs j f.ids
  unfolding update_at
  occurs-update_at f index item id j e =
      let written = record f { items = set f.items index item; items_view = none } in
      elim (Bool-cases (is_some reconcile.compare)) [
        | inl ordered ↦
            rw (ordered, ids-move_by_compare written index item id j)
              (sym (rw e at (occurs-remove_at j index f.ids)))
        | inr free ↦ rw free
      ]

module _ (exempt : Bool) (j : String) (named : (j == "") ≡ false) where
  remove_entry-Tracks :
      (f : Family) (index : ℕ) (t : Tables) (n : ℕ)
      → Tracks exempt j (occurs j f.ids + n) t
      → Held exempt j n (remove_entry t f index)
  unfolding remove_entry
  remove_entry-Tracks f index t n h =
      release_if_set-Tracks exempt (get_elem? f.ids index) j (occurs j (remove_at index f.ids) + n)
        t named (recount (omega (arith, occurs-remove_at j index f.ids)) h)

  pub drop_item-Balances : (id : String) → Balances exempt j (drop_item id)
  unfolding drop_item
  drop_item-Balances id f t n h = elim (Option-cases (index_of id f.ids)) [
    | inl e ↦ rw (e, drop_item) h
    | inr (index, e) ↦ rw (e, drop_item) (remove_entry-Tracks f index t n h)
  ]

  pub update_item-Balances :
      (host : Host) (reconcile : Reconcile) (id : String) (item : Value)
      → ((id == j) && not exempt) ≡ false
      → Balances exempt j (update_item host reconcile id item)
  unfolding update_item
  update_item-Balances host reconcile id item fresh f t n h =
      elim (Option-cases (index_of id f.ids)) [
        | inl e ↦
            rw (e, update_item)
              (elim (Bool-cases (matches reconcile item f.query)) [
                | inl wanted ↦
                    rw wanted
                      (add_with_family-Tracks exempt j id named fresh host reconcile f item t n h)
                | inr left ↦ rw left h
              ])
        | inr (index, e) ↦
            rw (e, update_item)
              (elim (Bool-cases (matches reconcile item f.query)) [
                | inl kept ↦
                    rw
                      (
                        kept,
                        occurs-update_at host reconcile f index item id j
                            (get_elem?-index_of id f.ids index e),
                      )
                      h
                | inr left ↦ rw left (remove_entry-Tracks f index t n h)
              ])
      ]
