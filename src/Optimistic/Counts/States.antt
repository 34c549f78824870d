-- ===== src/Optimistic/Counts/States.antt =====
-- The invariant of the comment over retain and release in client/optimistic.ts, for a whole state,
-- and its preservation by the operations on the map of families.
use sync_resource.Shared.{
  ℕ, ◌+◌, String, ◌≡◌, refl, sym, ap, false, Option, none, some, [], ◌∷◌, arith, eq_refl, inl, inr,
  Bool-cases, Option-cases, ◌==◌,
}
use sync_resource.Shared.JsMap.{JsMap, get, put, delete, get-delete}
use sync_resource.Optimistic.Types.{Family, Tables, State, create_optimistic_state}
use sync_resource.Optimistic.Refs.{no_families}
use sync_resource.Optimistic.Families.{is_key, read_family, get_active_family, evict}
use sync_resource.Optimistic.Occurs.{occurs, total}
use sync_resource.Optimistic.Counts.{Tracks, refs_of, recount, release_all-Tracks}
use sync_resource.Optimistic.Counts.Maps.{
  UniqueKeys, held_by, total-put, total-delete, put-UniqueKeys, delete-UniqueKeys,
}

-- The tables of a state with no family count nothing; its items are those of single reads.
abbrev pub RightAt : String → JsMap Family → Tables → Type 0
RightAt j [] t = get j t.family_refs ≡ none
RightAt j (kf ∷ fs) t = Tracks false j (total j (kf ∷ fs)) t

-- While families exist, `baseItems` holds exactly the items that some family holds, and
-- `familyRefs` counts the places that hold each id.
pub record IsCounted (s : State) : Type 0 where
  pub unique : UniqueKeys s.families
  pub right : (j : String) → (j == "") ≡ false → RightAt j s.families s.tables

pub create-IsCounted : IsCounted create_optimistic_state
unfolding create_optimistic_state get
create-IsCounted = record { unique = tt; right = λ j h. refl }

-- Enough for a map that may be empty.
pub RightAt-of-Tracks :
    (j : String) (fs : JsMap Family) (t : Tables) → Tracks false j (total j fs) t → RightAt j fs t
unfolding total
RightAt-of-Tracks j [] t h = ground arith
RightAt-of-Tracks j (kf ∷ fs) t h = h

-- The count alone, which holds with or without families.
pub counted-of-RightAt :
    (j : String) (fs : JsMap Family) (t : Tables)
    → RightAt j fs t
    → get j t.family_refs ≡ refs_of (total j fs)
unfolding total
counted-of-RightAt j [] t h = h
counted-of-RightAt j (kf ∷ fs) t h = h.counted

-- With a family in the map the tables are exact.
pub Tracks-of-RightAt :
    (j : String) (fs : JsMap Family) (t : Tables)
    → no_families fs ≡ false
    → RightAt j fs t
    → Tracks false j (total j fs) t
unfolding no_families
Tracks-of-RightAt j [] t e h = cc
Tracks-of-RightAt j (kf ∷ fs) t e h = h

no_families-put : (k : String) (f : Family) (m : JsMap Family) → no_families (put k f m) ≡ false
unfolding no_families put
no_families-put k f [] = refl
no_families-put k f ((l, g) ∷ m) = ground arith

pub no_families_of_get :
    (k : String) (m : JsMap Family) (f : Family) → get k m ≡ some f → no_families m ≡ false
unfolding no_families get
no_families_of_get k [] f e = cc
no_families_of_get k (kf ∷ m) f e = refl

-- Moving a family to the end changes no count.
total_moved :
    (j k : String) (m : JsMap Family) (f : Family)
    → UniqueKeys m
    → get k m ≡ some f
    → total j (put k f (delete k m)) ≡ total j m
total_moved j k m f u e =
    let gone : get k (delete k m) ≡ none = rw (get-delete, eq_refl) in
    omega (
      arith,
      total-put j k f (delete k m),
      total-delete j k m u,
      ap (held_by j) gone,
      ap (held_by j) e,
    )

-- A map that is not empty, with other families that hold as much, is as right.
pub RightAt-regroup :
    (j : String) (m m' : JsMap Family) (t : Tables)
    → no_families m ≡ false
    → total j m' ≡ total j m
    → RightAt j m t
    → RightAt j m' t
RightAt-regroup j m m' t n e h =
    RightAt-of-Tracks j m' t (recount (sym e) (Tracks-of-RightAt j m t n h))

pub read_family-IsCounted :
    (s : State) (key : String) → IsCounted s → IsCounted (read_family s key).0
unfolding read_family
read_family-IsCounted s key h = elim (Option-cases (get key s.families)) [
  | inl e ↦ rw (e, read_family) h
  | inr (f, e) ↦
      rw (e, read_family)
        (elim (Bool-cases (is_key s.recent_family_key key)) [
          | inl recent ↦ rw recent h
          | inr old ↦ rw old (record {
            unique = put-UniqueKeys key f _ (delete-UniqueKeys key s.families h.unique);
            right = λ j named.
                RightAt-regroup j s.families _ s.tables (no_families_of_get key s.families f e)
                  (total_moved j key s.families f h.unique e) (h.right j named);
          })
        ])
]

pub get_active_family-IsCounted : (s : State) → IsCounted s → IsCounted (get_active_family s).0
unfolding get_active_family
get_active_family-IsCounted s h = elim (Option-cases s.active_family_key) [
  | inl e ↦ rw (e, get_active_family) h
  | inr (key, e) ↦
      rw (e, get_active_family)
        (elim (Bool-cases (key == "")) [
          | inl empty ↦ rw empty h
          | inr set ↦ rw set (read_family-IsCounted s key h)
        ])
]

-- Eviction gives back what the family held.
pub evict-Tracks :
    (active : Option String) (m : JsMap Family) (t : Tables) (j : String) (n : ℕ)
    → Tracks false j (total j m + n) t
    → Tracks false j (total j (evict active m t).0 + n) (evict active m t).1
unfolding evict total
evict-Tracks active [] t j n h = h
evict-Tracks active ((k, f) ∷ m) t j n h = elim (Bool-cases (is_key active k)) [
  | inl keep ↦ rw keep (
      recount (omega arith)
        (evict-Tracks active m t j (occurs j f.ids + n) (recount (omega arith) h)))
  | inr drop ↦
      rw drop (release_all-Tracks false f.ids j (total j m + n) t (recount (omega arith) h))
]
