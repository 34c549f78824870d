-- ===== src/Optimistic/Counts.antt =====
-- The reference counts against the families: every change of a family balances the counts.
pub mod Steps
pub mod Maps
pub mod States
pub mod Creation
pub mod Pages
pub mod Loads
pub mod Envelopes
use sync_resource.Shared.{
  ℕ, ◌+◌, ◌-◌, String, ◌≡◌, subst, Bool, true, false, not, ◌&&◌, ◌||◌, Option, none, some, List, [],
  ◌∷◌, arith, eq_iff, eqb, or_default, if◌then◌else◌, ◌==◌,
}
use sync_resource.Shared.JsMap.{JsMap, get, has, get-put, get-delete}
use sync_resource.Optimistic.Types.{Family, Tables}
use sync_resource.Optimistic.Refs.{retain, release, release_all, for_families}
use sync_resource.Optimistic.Changes.{release_if_set}
use sync_resource.Optimistic.Occurs.{hit, hit_of, occurs, total}

-- The entry for an id that `n` places hold: none where nothing holds it.
abbrev pub refs_of : ℕ → Option ℕ
refs_of n = if eqb n 0 then none else some n

-- The tables are right for the id `j`, which `n` places hold. An id that is being added is exempt
-- from having an item until its operation stores one.
pub record Tracks (exempt : Bool) (j : String) (n : ℕ) (t : Tables) : Type 0 where
  pub counted : get j t.family_refs ≡ refs_of n
  pub no_leak : (has j t.base_items && eqb n 0) ≡ false
  pub present : (exempt || eqb n 0 || has j t.base_items) ≡ true

pub recount :
    {exempt : Bool} {j : String} {m n : ℕ} {t : Tables}
    → m ≡ n
    → Tracks exempt j m t
    → Tracks exempt j n t
recount {exempt} {j} {m} {n} {t} e h = subst (λ k. Tracks exempt j k t) e h

module _ (exempt : Bool) (id j : String) (n : ℕ) (t : Tables) where
  pub retain-Tracks :
      ((id == j) && not exempt) ≡ false
      → Tracks exempt j n t
      → Tracks exempt j (hit id j + n) (retain t id)
  unfolding retain
  retain-Tracks e h =
      ground
        (arith, get-put id j (or_default (get id t.family_refs) 0 + 1) t.family_refs, eq_iff id j)

  pub release-Tracks : Tracks exempt j (hit id j + n) t → Tracks exempt j n (release t id)
  unfolding release
  release-Tracks h = ground (
    arith,
    get-put id j (or_default (get id t.family_refs) 0 - 1) t.family_refs,
    get-delete id j t.family_refs,
    get-delete id j t.base_items,
    eq_iff id j,
  )

pub release_if_set-Tracks :
    (exempt : Bool) (id : Option String) (j : String) (n : ℕ) (t : Tables)
    → (j == "") ≡ false
    → Tracks exempt j (hit_of id j + n) t
    → Tracks exempt j n (release_if_set t id)
unfolding release_if_set
release_if_set-Tracks exempt none j n t e h = ground arith
release_if_set-Tracks exempt (some id) j n t e h =
    ground (arith, release-Tracks exempt id j n t, eq_iff id j, eq_iff id "", eq_iff j "")

pub release_all-Tracks :
    (exempt : Bool) (ids : List String) (j : String) (n : ℕ) (t : Tables)
    → Tracks exempt j (occurs j ids + n) t
    → Tracks exempt j n (release_all t ids)
unfolding release_all occurs
release_all-Tracks exempt [] j n t h = recount (omega arith) h
release_all-Tracks exempt (id ∷ ids) j n t h =
    release_all-Tracks exempt ids j n (release t id)
      (release-Tracks exempt id j (occurs j ids + n) t (recount (omega arith) h))

-- A change of one family balances the tables whatever the other families hold.
abbrev pub Balances : Bool → String → (Family → Tables → Family × Tables) → Type 0
Balances exempt j body =
    (f : Family) (t : Tables) (n : ℕ)
    → Tracks exempt j (occurs j f.ids + n) t
    → Tracks exempt j (occurs j (body f t).0.ids + n) (body f t).1

pub for_families-Tracks :
    (exempt : Bool) (j : String) (body : Family → Tables → Family × Tables)
    → Balances exempt j body
    → (fs : JsMap Family) (t : Tables) (n : ℕ) → Tracks exempt j (total j fs + n) t
    → Tracks exempt j (total j (for_families body fs t).0 + n) (for_families body fs t).1
unfolding for_families total
for_families-Tracks exempt j body b [] t n h = h
for_families-Tracks exempt j body b ((k, f) ∷ fs) t n h =
    let (f', t') = body f t in
    recount (omega arith) (
      for_families-Tracks exempt j body b fs t' (occurs j f'.ids + n)
        (recount (omega arith) (b f t (total j fs + n) (recount (omega arith) h))))
