-- ===== src/Optimistic/Coherent/States.antt =====
-- Reads of client/optimistic.ts in a state that a store reaches answer what they would compute afresh.
use sync_resource.Shared.{
  ◌≡◌, refl, ◌∙◌, Option, none, some, inl, inr, or_default, Bool-cases, Option-cases, ◌==◌,
}
use sync_resource.Shared.JsMap.{get}
use sync_resource.Optimistic.Types.{Family, State, Host, Reconcile}
use sync_resource.Optimistic.Window.{pages_of, page_states, plain_items, plain_family_items}
use sync_resource.Optimistic.Families.{read_family, get_active_family}
use sync_resource.Optimistic.Counts.Creation.{get-read_family}
use sync_resource.Optimistic.Coherent.{IsCoherent}

module _ (host : Host) (reconcile : Reconcile) where
  -- What a read answers, and what it leaves in the family.
  pub plain_family_items-fresh :
      (f : Family)
      → IsCoherent reconcile f
      → ((plain_family_items f reconcile).1 ≡ plain_items f reconcile)
        × IsCoherent reconcile (plain_family_items f reconcile).0
  unfolding plain_family_items plain_items
  plain_family_items-fresh f h = elim (Option-cases f.items_view) [
    | inl e ↦ rw (e, plain_family_items) (refl, record { items = λ v k. cc; pages = h.pages })
    | inr (v, e) ↦ rw (e, plain_family_items) (h.items v e, h)
  ]

  pages_of-fresh :
      (f : Family)
      → IsCoherent reconcile f
      → ((pages_of f).1 ≡ page_states f.pages f.ids) × IsCoherent reconcile (pages_of f).0
  unfolding pages_of plain_items
  pages_of-fresh f h = elim (Option-cases f.pages_view) [
    | inl e ↦ rw (e, pages_of) (refl, record { items = h.items; pages = λ v k. cc })
    | inr (v, e) ↦ rw (e, pages_of) (h.pages v e, h)
  ]

  -- The views that a read leaves are those that the family may keep.
  abbrev Fits : Family → Option Family → Type 0
  Fits f none = Unit {0}
  Fits f (some g) =
      IsCoherent reconcile (record f { items_view = g.items_view; pages_view = g.pages_view })

  -- The active family stands under the key that is selected.
  pub get-get_active_family :
      (s : State) (f : Family)
      → (get_active_family s).1 ≡ some f
      → get (or_default s.active_family_key "") (get_active_family s).0.families ≡ some f
  unfolding get_active_family
  get-get_active_family s f e = elim (Option-cases s.active_family_key) [
    | inl n ↦ cc (rw (n, get_active_family) at e)
    | inr (key, n) ↦
        rw (n, get_active_family)
          (elim (Bool-cases (key == "")) [
            | inl empty ↦ cc (rw (n, get_active_family, empty) at e)
            | inr set ↦
                let found : (read_family s key).1 ≡ some f = rw (n, get_active_family, set) at e in
                rw set (get-read_family s key ∙ found)
          ])
  ]
