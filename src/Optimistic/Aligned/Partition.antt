-- ===== src/Optimistic/Aligned/Partition.antt =====
-- pagesOf of client/optimistic.ts: the pages that it answers partition the ids of the family.
use sync_resource.Shared.{
  ℕ, zero, suc, String, ◌≡◌, refl, ap, ◌∙◌, List, [], ◌∷◌, ◌++◌, arith, length, take, drop,
  length-take, length-drop, map,
}
use sync_resource.Optimistic.Types.{PageMeta, PageState, Family}
use sync_resource.Optimistic.Window.{page_total, page_states}
use sync_resource.Optimistic.Aligned.Inserts.{IsAligned}

-- The ids of the pages, one page after the other.
abbrev pub ids_of_pages : List PageState → List String
ids_of_pages [] = []
ids_of_pages (p ∷ ps) = p.ids ++ ids_of_pages ps

-- How many ids each page has.
abbrev pub sizes : List PageState → List ℕ
sizes [] = []
sizes (p ∷ ps) = length p.ids ∷ sizes ps

take-drop {ℓ} : {A : Type ℓ} (n : ℕ) (xs : List A) → take n xs ++ drop n xs ≡ xs
take-drop zero xs = refl
take-drop (suc n) [] = refl
take-drop (suc n) (x ∷ xs) = ap (◌∷◌ x) (take-drop n xs)

none_left : (ids : List String) → 0 ≡ length ids → [] ≡ ids
none_left [] e = refl
none_left (id ∷ ids) e = absurd (omega arith)

ids_of_pages-page_states :
    (ps : List PageMeta) (ids : List String)
    → page_total ps ≡ length ids
    → ids_of_pages (page_states ps ids) ≡ ids
unfolding page_states page_total
ids_of_pages-page_states [] ids e = none_left ids e
ids_of_pages-page_states (p ∷ ps) ids e =
    ap (◌++◌ (take p.count ids))
      (ids_of_pages-page_states ps (drop p.count ids) (omega (arith, length-drop p.count ids, e)))
    ∙ take-drop p.count ids

sizes-page_states :
    (ps : List PageMeta) (ids : List String)
    → page_total ps ≡ length ids
    → sizes (page_states ps ids) ≡ map (λ p. p.count) ps
unfolding page_states page_total
sizes-page_states [] ids e = refl
sizes-page_states (p ∷ ps) ids e =
    let here : length (take p.count ids) ≡ p.count = omega (arith, length-take p.count ids, e) in
    rw here (
      ap (◌∷◌ p.count)
        (sizes-page_states ps (drop p.count ids) (omega (arith, length-drop p.count ids, e))))

-- The pages of an aligned family hold its ids one after the other, each page as many as it counts.
pub page_states-partition :
    (f : Family)
    → IsAligned f
    → (ids_of_pages (page_states f.pages f.ids) ≡ f.ids)
      × (sizes (page_states f.pages f.ids) ≡ map (λ p. p.count) f.pages)
page_states-partition f h =
    (ids_of_pages-page_states f.pages f.ids h.pages, sizes-page_states f.pages f.ids h.pages)
