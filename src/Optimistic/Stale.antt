-- ===== src/Optimistic/Stale.antt =====
-- markPagesStale of client/optimistic.ts changes no id and no key.
use sync_resource.Shared.{String, ◌≡◌, refl, sym, none, List, [], ◌∷◌, map, arith}
use sync_resource.Shared.JsMap.{JsMap, get}
use sync_resource.Optimistic.Types.{PageMeta, Family, Tables}
use sync_resource.Optimistic.Envelope.{stale_page, mark_pages_stale}
use sync_resource.Optimistic.Occurs.{total}
use sync_resource.Optimistic.Counts.{recount}
use sync_resource.Optimistic.Counts.Maps.{UniqueKeys}
use sync_resource.Optimistic.Counts.States.{RightAt}
use sync_resource.Optimistic.Window.{page_total}
use sync_resource.Optimistic.Aligned.Inserts.{IsAligned}

get-stale : (k : String) (m : JsMap Family) → get k m ≡ none → get k (mark_pages_stale m) ≡ none
unfolding mark_pages_stale get
get-stale k [] e = refl
get-stale k ((i, f) ∷ m) e = ground (arith, get-stale k m)

pub stale-UniqueKeys : (m : JsMap Family) → UniqueKeys m → UniqueKeys (mark_pages_stale m)
unfolding mark_pages_stale
stale-UniqueKeys [] u = tt
stale-UniqueKeys ((i, f) ∷ m) u = (get-stale i m u.0, stale-UniqueKeys m u.1)

total-stale : (j : String) (m : JsMap Family) → total j (mark_pages_stale m) ≡ total j m
unfolding mark_pages_stale total
total-stale j [] = refl
total-stale j ((i, f) ∷ m) = omega (arith, total-stale j m)

pub stale-RightAt :
    (j : String) (m : JsMap Family) (t : Tables) → RightAt j m t → RightAt j (mark_pages_stale m) t
unfolding mark_pages_stale
stale-RightAt j [] t h = h
stale-RightAt j ((i, f) ∷ m) t h = recount (sym (total-stale j ((i, f) ∷ m))) h

page_total-stale : (ps : List PageMeta) → page_total (map stale_page ps) ≡ page_total ps
unfolding page_total stale_page
page_total-stale [] = refl
page_total-stale (p ∷ ps) = omega (arith, page_total-stale ps)

pub stale-IsAligned :
    (f : Family)
    → IsAligned f
    → IsAligned (record f { pages = map stale_page f.pages; pages_view = none })
stale-IsAligned f h = record {
  items = h.items;
  pages = omega (arith, page_total-stale f.pages, h.pages);
}
