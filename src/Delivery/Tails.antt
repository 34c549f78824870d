-- ===== src/Delivery/Tails.antt =====
-- The tails of the list of sent cursors in server/streamMultiplexer.ts.
use sync_resource.Shared.{
  ℕ, zero, suc, ◌≤◌, String, ◌≡◌, refl, subst, true, false, List, [], ◌∷◌, ◌++◌, arith, eq_iff,
  eq_refl, inl, inr, drop, Bool-cases, ◌==◌,
}
use sync_resource.Optimistic.Occurs.{occurs, occurs-append}
use sync_resource.Optimistic.Pages.{contains}

pub contains-last : (cs : List String) (c : String) → contains c (cs ++ c ∷ []) ≡ true
unfolding contains
contains-last [] c = rw (eq_refl c) refl
contains-last (d ∷ cs) c = rw (contains-last cs c) (ground arith)

contains-occurs : (cs : List String) (c : String) → contains c cs ≡ false → occurs c cs ≡ 0
unfolding contains occurs
contains-occurs [] c h = refl
contains-occurs (d ∷ cs) c h = ground (arith, contains-occurs cs c)

occurs-drop : (j : String) (n : ℕ) (cs : List String) → occurs j (drop n cs) ≤ occurs j cs
unfolding occurs
occurs-drop j zero cs = omega arith
occurs-drop j (suc n) [] = omega arith
occurs-drop j (suc n) (c ∷ cs) = omega (arith, occurs-drop j n cs)

pub distinct-snoc :
    (j c : String) (n : ℕ) (cs : List String)
    → contains c cs ≡ false
    → occurs j cs ≤ 1
    → occurs j (drop n cs ++ c ∷ []) ≤ 1
unfolding occurs
distinct-snoc j c n cs new once =
    let split = occurs-append j (drop n cs) (c ∷ []) in
    let absent = contains-occurs cs c new in
    elim (Bool-cases (c == j)) [
      | inl same ↦
          let here : c ≡ j = (eq_iff c j).0 same in
          let gone : occurs j cs ≡ 0 = subst (λ (k : String). occurs k cs ≡ 0) here absent in
          rw (split, same) (omega (arith, occurs-drop j n cs, gone))
      | inr other ↦ rw (split, other) (omega (arith, occurs-drop j n cs, once))
    ]
