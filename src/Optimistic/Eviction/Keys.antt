-- ===== src/Optimistic/Eviction/Keys.antt =====
-- The keys that stay when client/optimistic.ts drops an entry.
use sync_resource.Shared.{
  suc, ◌≤◌, String, ◌≡◌, ◌∙◌, refl, sym, ap, true, false, Option, none, some, [], ◌∷◌, arith,
  eq_iff, eq_refl, inl, inr, length, Bool-cases, ◌==◌,
}
use sync_resource.Shared.JsMap.{JsMap, get, put, delete, get-put}
use sync_resource.Optimistic.Types.{Family, Tables}
use sync_resource.Optimistic.Families.{is_key, evict}
use sync_resource.Optimistic.Counts.Maps.{UniqueKeys}

pub length-put_new :
    (k : String) (f : Family) (m : JsMap Family)
    → get k m ≡ none
    → length (put k f m) ≡ suc (length m)
unfolding put get
length-put_new k f [] e = refl
length-put_new k f ((i, g) ∷ m) e = ground (arith, length-put_new k f m)

pub length-put_old :
    (k : String) (f : Family) (m : JsMap Family) (g : Family)
    → get k m ≡ some g
    → length (put k f m) ≡ length m
unfolding put get
length-put_old k f [] g e = cc
length-put_old k f ((i, h) ∷ m) g e = ground (arith, length-put_old k f m g)

delete-gone : (k : String) (m : JsMap Family) → get k m ≡ none → delete k m ≡ m
unfolding delete get
delete-gone k [] e = refl
delete-gone k ((i, g) ∷ m) e = elim (Bool-cases (i == k)) [
  | inl same ↦ cc (rw same at e)
  | inr other ↦ rw other (ap (◌∷◌ (i, g)) (delete-gone k m (rw other at e)))
]

pub length-delete :
    (k : String) (m : JsMap Family) (g : Family)
    → UniqueKeys m
    → get k m ≡ some g
    → suc (length (delete k m)) ≡ length m
unfolding delete get
length-delete k [] g u e = cc
length-delete k ((i, h) ∷ m) g u e = elim (Bool-cases (i == k)) [
  | inl same ↦
      let gone : get k m ≡ none = rw ((eq_iff i k).0 same) at u.0 in
      rw same (ap (λ (n : JsMap Family). suc (length n)) (delete-gone k m gone))
  | inr other ↦ rw other (ap suc (length-delete k m g u.1 (rw other at e)))
]

-- Two keys that differ are not both the active one.
other_active :
    (active : Option String) (i k : String)
    → (i == k) ≡ false
    → is_key active i ≡ true
    → is_key active k ≡ false
unfolding is_key
other_active none i k e h = refl
other_active (some a) i k e h = ground (arith, eq_iff i k, eq_iff a i, eq_iff a k)

module _ (active : Option String) (t : Tables) where
  -- With two families at least, one goes.
  pub length-evict :
      (m : JsMap Family)
      → UniqueKeys m
      → 2 ≤ length m
      → suc (length (evict active m t).0) ≡ length m
  unfolding evict get
  length-evict [] u h = absurd (omega arith)
  length-evict (kf ∷ []) u h = absurd (omega arith)
  length-evict ((i, f) ∷ (k, g) ∷ m) u h = elim (Bool-cases (is_key active i)) [
    | inr passive ↦ rw passive refl
    | inl kept ↦
        let apart : (k == i) ≡ false = ground (arith, u.0) in
        let second : is_key active k ≡ false =
          other_active active i k (ground (arith, apart, eq_iff i k, eq_iff k i)) kept in
        rw (kept, second) refl
  ]

  -- A key that is active, or that is neither of the first two, stays.
  pub get-evict_active :
      (j : String) (m : JsMap Family)
      → is_key active j ≡ true
      → get j (evict active m t).0 ≡ get j m
  unfolding evict get
  get-evict_active j [] h = refl
  get-evict_active j ((i, f) ∷ m) h = elim (Bool-cases (is_key active i)) [
    | inl kept ↦ rw kept (ground (arith, get-evict_active j m h))
    | inr passive ↦ rw passive (elim (Bool-cases (i == j)) [
      | inl same ↦
          let passive' : is_key active j ≡ false = rw ((eq_iff i j).0 same) at passive in
          cc (sym h ∙ passive')
      | inr other ↦ rw other refl
    ])
  ]

  pub get-evict_last :
      (j : String) (m : JsMap Family) (f : Family)
      → UniqueKeys m
      → get j m ≡ none
      → 2 ≤ length m
      → get j (evict active (put j f m) t).0 ≡ some f
  unfolding evict get put
  get-evict_last j [] f u e h = absurd (omega arith)
  get-evict_last j (ig ∷ []) f u e h = absurd (omega arith)
  get-evict_last j ((i, f1) ∷ (k, f2) ∷ m) f u e h =
      let first : (i == j) ≡ false = ground arith in
      let second : (k == j) ≡ false = ground arith in
      let there : get j (put j f m) ≡ some f = rw (get-put j j f m, eq_refl j) refl in
      let apart : (k == i) ≡ false = ground (arith, u.0) in
      rw (first, second)
        (elim (Bool-cases (is_key active i)) [
          | inr passive ↦ rw (passive, second) there
          | inl kept ↦
              let passive : is_key active k ≡ false =
                other_active active i k (ground (arith, apart, eq_iff i k, eq_iff k i)) kept in
              rw (kept, passive, first) there
        ])
