-- ===== src/Delivery/Window.antt =====
-- The window of sent cursors in server/streamMultiplexer.ts.
use sync_resource.Shared.{
  drop-step, drop-snoc, drop-add, past_of_get_elem?, ℕ, zero, suc, ◌+◌, ◌-◌, ◌*◌, ◌≤◌, ◌<◌, String,
  ◌≡◌, refl, sym, ap, ◌∙◌, true, false, not, ◌&&◌, some, List, [], ◌∷◌, ◌++◌, arith, eq_refl, inl,
  inr, length, get_elem?, drop, ltb, Option-cases, length-append, length-drop, Bool-cases,
}
use sync_resource.Optimistic.Occurs.{occurs}
use sync_resource.Optimistic.Pages.{contains}
use sync_resource.Delivery.Tails.{contains-last, distinct-snoc}
use sync_resource.Delivery.{
  sent_cursor_window, StreamState, forget, drop_stale, drop_stale_all, compact,
  remember_sent_cursor,
}

-- The set holds the cursors of the list from the start of the window on, and no more than the window.
pub record IsWindow (s : StreamState) : Type 0 where
  pub kept : s.sent_cursors ≡ drop s.sent_cursor_start s.sent_cursor_order
  pub inside : s.sent_cursor_start ≤ length s.sent_cursor_order
  pub bounded : length s.sent_cursors ≤ sent_cursor_window
  pub distinct : (j : String) → occurs j s.sent_cursors ≤ 1

-- The set and the list agree.
abbrev Agrees : StreamState → Type 0
Agrees s = s.sent_cursors ≡ drop s.sent_cursor_start s.sent_cursor_order

forget-head : (c : String) (cs : List String) → forget c (c ∷ cs) ≡ cs
unfolding forget
forget-head c cs = rw (eq_refl c) refl

drop_stale-order : (s : StreamState) → (drop_stale s).sent_cursor_order ≡ s.sent_cursor_order
unfolding drop_stale
drop_stale-order s = refl

drop_stale-start : (s : StreamState) → (drop_stale s).sent_cursor_start ≡ suc s.sent_cursor_start
unfolding drop_stale
drop_stale-start s = omega arith

drop_stale-cursors :
    (s : StreamState) (stale : String)
    → get_elem? s.sent_cursor_order s.sent_cursor_start ≡ some stale
    → (drop_stale s).sent_cursors ≡ forget stale s.sent_cursors
unfolding drop_stale
drop_stale-cursors s stale e = rw (drop_stale, e) refl

drop_stale-Agrees :
    (s : StreamState)
    → s.sent_cursor_start < length s.sent_cursor_order
    → Agrees s
    → Agrees (drop_stale s)
drop_stale-Agrees s h agrees =
    elim (Option-cases (get_elem? s.sent_cursor_order s.sent_cursor_start)) [
      | inl e ↦ absurd (omega (arith, past_of_get_elem? s.sent_cursor_order s.sent_cursor_start e))
      | inr (stale, e) ↦
          let split = agrees ∙ drop-step s.sent_cursor_order s.sent_cursor_start stale e in
          let cursors : (drop_stale s).sent_cursors
              ≡ drop (suc s.sent_cursor_start) s.sent_cursor_order =
            drop_stale-cursors s stale e
            ∙ ap (forget stale) split
            ∙ forget-head stale (drop (suc s.sent_cursor_start) s.sent_cursor_order) in
          rw (drop_stale-order s, drop_stale-start s) cursors
    ]

record IsDropped (rounds : ℕ) (s after : StreamState) : Type 0 where
  order : after.sent_cursor_order ≡ s.sent_cursor_order
  start : after.sent_cursor_start ≡ s.sent_cursor_start + rounds
  agrees : Agrees after

drop_stale_all-IsDropped :
    (rounds : ℕ) (s : StreamState)
    → s.sent_cursor_start + rounds ≤ length s.sent_cursor_order
    → Agrees s
    → IsDropped rounds s (drop_stale_all rounds s)
unfolding drop_stale_all
drop_stale_all-IsDropped zero s h agrees = record {
  order = refl;
  start = omega arith;
  agrees = agrees;
}
drop_stale_all-IsDropped (suc rounds) s h agrees =
    let order = drop_stale-order s in
    let start = drop_stale-start s in
    let rest =
      drop_stale_all-IsDropped rounds (drop_stale s)
        (omega (arith, ap (length {A = String}) order, start))
        (drop_stale-Agrees s (omega arith) agrees) in
    record {
      order = rest.order ∙ order;
      start = omega (arith, rest.start, start);
      agrees = rest.agrees;
    }

compact-IsWindow : (s : StreamState) → IsWindow s → IsWindow (compact s)
unfolding compact
compact-IsWindow s h =
    elim (Bool-cases (
      ltb 1024 s.sent_cursor_start && ltb (length s.sent_cursor_order) (s.sent_cursor_start * 2))) [
        | inl much ↦ rw much (record {
          kept = h.kept;
          inside = omega arith;
          bounded = h.bounded;
          distinct = h.distinct;
        })
        | inr little ↦ rw little h
      ]

cursors-compact : (s : StreamState) → (compact s).sent_cursors ≡ s.sent_cursors
unfolding compact
cursors-compact s = ground arith

module _ (s : StreamState) (cursor : String) (h : IsWindow s)
    (new : contains cursor s.sent_cursors ≡ false) where
  abbrev added : StreamState
  added = record s {
    sent_cursors = s.sent_cursors ++ cursor ∷ [];
    sent_cursor_order = s.sent_cursor_order ++ cursor ∷ [];
  }

  abbrev over : ℕ
  over = length added.sent_cursor_order - added.sent_cursor_start - sent_cursor_window

  added-Agrees : Agrees added
  added-Agrees =
      ap (λ (cs : List String). cs ++ cursor ∷ []) h.kept
      ∙ sym (drop-snoc s.sent_cursor_order s.sent_cursor_start cursor h.inside)

  size : length s.sent_cursors ≡ length s.sent_cursor_order - s.sent_cursor_start
  size = ap (length {A = String}) h.kept ∙ length-drop s.sent_cursor_start s.sent_cursor_order

  grown : length added.sent_cursor_order ≡ length s.sent_cursor_order + 1
  grown = omega (arith, length-append s.sent_cursor_order (cursor ∷ []))

  dropped : IsDropped over added (drop_stale_all over added)
  dropped =
      drop_stale_all-IsDropped over added (omega (arith, grown, size, h.inside, h.bounded))
        added-Agrees

  -- The cursors that are left are the last ones of the old set, and the new one.
  left : (drop_stale_all over added).sent_cursors ≡ drop over s.sent_cursors ++ cursor ∷ []
  left =
      let start : ℕ = s.sent_cursor_start in
      let order : List String = s.sent_cursor_order in
      dropped.agrees
      ∙ ap (λ (n : ℕ). drop n (drop_stale_all over added).sent_cursor_order) dropped.start
      ∙ ap (λ (cs : List String). drop (start + over) cs) dropped.order
      ∙ drop-snoc order (start + over) cursor (omega (arith, grown, size, h.inside, h.bounded))
      ∙ ap (λ (cs : List String). cs ++ cursor ∷ [])
          (drop-add order start over ∙ ap (drop over) (sym h.kept))

  remembered-IsWindow : IsWindow (drop_stale_all over added)
  remembered-IsWindow = record {
    kept = dropped.agrees;
    inside = omega (
      arith,
      dropped.start,
      ap (length {A = String}) dropped.order,
      grown,
      size,
      h.inside,
      h.bounded,
    );
    bounded = omega (
      arith,
      ap (length {A = String}) left,
      length-append (drop over s.sent_cursors) (cursor ∷ []),
      length-drop over s.sent_cursors,
      grown,
      size,
      h.inside,
      h.bounded,
    );
    distinct = λ j. rw left (distinct-snoc j cursor over s.sent_cursors new (h.distinct j));
  }

  has-remembered : contains cursor (drop_stale_all over added).sent_cursors ≡ true
  has-remembered = rw left (contains-last (drop over s.sent_cursors) cursor)

-- rememberSentCursor answers true exactly for a cursor that is not in the window. The set stays the
-- tail of the list from the start of the window on, it never grows over 4096 cursors, it holds no
-- cursor twice, and the cursor is in it afterwards.
pub remember_sent_cursor-IsWindow :
    (s : StreamState) (cursor : String)
    → IsWindow s
    → IsWindow (remember_sent_cursor s cursor).0
      × ((remember_sent_cursor s cursor).1 ≡ not (contains cursor s.sent_cursors))
      × (contains cursor (remember_sent_cursor s cursor).0.sent_cursors ≡ true)
unfolding remember_sent_cursor
remember_sent_cursor-IsWindow s cursor h = elim (Bool-cases (contains cursor s.sent_cursors)) [
  | inl seen ↦ rw seen (h, refl, seen)
  | inr new ↦
      let after : StreamState = drop_stale_all (over s cursor h new) (added s cursor h new) in
      rw new (
        compact-IsWindow after (remembered-IsWindow s cursor h new),
        refl,
        ap (contains cursor) (cursors-compact after) ∙ has-remembered s cursor h new,
      )
]
