-- ===== src/Routes.antt =====
-- The routes of src/spidercheck/urls.py and the links of src/spidercheck/links.py. A link is what it asks of
-- Django's `reverse_lazy`: the name of a view, and the names of its arguments with their values.
use spidercheck.Prelude.{
  ◌≡◌, refl, Bool, true, false, ◌&&◌, List, [], ◌∷◌, Text, codes, text_eq, length, keep, map,
}

-- A piece of a path: a literal, a site or a page.
pub data Segment : Type 0 where
  literal : Text → Segment
  site_segment page_segment : Segment

pub record Route : Type 0 where
  pub path : List Segment
  pub name : Text

-- `path(ruta, vista, name=vista.__name__)`
abbrev pub tie : List Segment → Text → Route
tie path name = record { path = path; name = name }

abbrev pub site_path : Text → List Segment
site_path rest = literal (codes "site/") ∷ site_segment ∷ literal rest ∷ []

abbrev pub page_path : Text → List Segment
page_path rest = literal (codes "page/") ∷ page_segment ∷ literal rest ∷ []

unfoldable pub urlpatterns : List Route
urlpatterns =
    tie [] (codes "homepage")
    ∷ tie (site_path (codes "/")) (codes "site_detail")
    ∷ tie (site_path (codes "/errores/")) (codes "site_errors")
    ∷ tie (site_path (codes "/queue/")) (codes "site_queue")
    ∷ tie (site_path (codes "/scheduled/")) (codes "site_scheduled")
    ∷ tie (site_path (codes "/last/")) (codes "site_last")
    ∷ tie (site_path (codes "/no_links/")) (codes "site_no_links")
    ∷ tie (site_path (codes "/search/")) (codes "site_search")
    ∷ tie (site_path (codes "/orphans/")) (codes "site_orphans")
    ∷ tie (site_path (codes "/expunge/")) (codes "site_expunge")
    ∷ tie (site_path (codes "/expunge/all/")) (codes "site_expunge_all")
    ∷ tie (page_path (codes "/")) (codes "detail_page")
    ∷ tie (page_path (codes "/check/")) (codes "page_check")
    ∷ tie (page_path (codes "/delete/")) (codes "page_delete")
    ∷ tie (page_path (codes "/toogle/is_linkable/")) (codes "toogle_is_linkable")
    ∷ []

-- What `reverse_lazy` is asked: the name behind `intranet:spidercheck:`, and `kwargs`.
pub record Reversed {ℓ} (A : Type ℓ) : Type ℓ where
  pub view : Text
  pub kwargs : List (Text × A)

module _ {ℓ} {A : Type ℓ} where
  abbrev to_site : Text → A → Reversed A
  to_site view site_or_name = record { view = view; kwargs = (codes "site", site_or_name) ∷ [] }

  abbrev pub a_homepage : Reversed A
  a_homepage = record { view = codes "homepage"; kwargs = [] }

  abbrev pub a_detalle_pagina : A → Reversed A
  a_detalle_pagina page_or_pk = record {
    view = codes "detail_page";
    kwargs = (codes "page", page_or_pk) ∷ [];
  }

  abbrev pub a_detalle_site : A → Reversed A
  a_detalle_site site_or_name = to_site (codes "site_detail") site_or_name

  abbrev pub a_site_errors : A → Reversed A
  a_site_errors site_or_name = to_site (codes "site_errors") site_or_name

  abbrev pub a_site_no_links : A → Reversed A
  a_site_no_links site_or_name = to_site (codes "site_no_links") site_or_name

  abbrev pub a_site_orphans : A → Reversed A
  a_site_orphans site_or_name = to_site (codes "site_orphans") site_or_name

  abbrev pub a_site_last : A → Reversed A
  a_site_last site_or_name = to_site (codes "site_last") site_or_name

  abbrev pub a_site_scheduled : A → Reversed A
  a_site_scheduled site_or_name = to_site (codes "site_scheduled") site_or_name

  abbrev pub a_site_queue : A → Reversed A
  a_site_queue site_or_name = to_site (codes "site_queue") site_or_name

  abbrev pub a_add_no_link : A → Reversed A
  a_add_no_link site_or_name = to_site (codes "add_no_link") site_or_name

-- The names of the arguments of a route.
abbrev arguments : List Segment → List Text
arguments [] = []
arguments (literal t ∷ path) = arguments path
arguments (site_segment ∷ path) = codes "site" ∷ arguments path
arguments (page_segment ∷ path) = codes "page" ∷ arguments path

same_texts : List Text → List Text → Bool
unfolding text_eq
same_texts [] [] = true
same_texts (s ∷ ss) (t ∷ ts) = text_eq s t && same_texts ss ts
same_texts ss ts = false

-- The routes of the name that take arguments of these names.
unfoldable pub routes_for {ℓ} : {A : Type ℓ} → Reversed A → List Route
unfolding same_texts keep urlpatterns
routes_for r =
    keep
      (λ route.
        text_eq route.name r.view && same_texts (arguments route.path) (map (λ k. k.0) r.kwargs))
      urlpatterns

-- Whatever its argument, each link of links.py names one route of urls.py that takes an argument of
-- that name, except `a_add_no_link`, which names none.
pub routes_for-links {ℓ} :
    {A : Type ℓ} (x : A)
    → (map
          (λ r. length (routes_for r))
          (a_homepage
            ∷ a_detalle_pagina x
            ∷ a_detalle_site x
            ∷ a_site_errors x
            ∷ a_site_no_links x
            ∷ a_site_orphans x
            ∷ a_site_last x
            ∷ a_site_scheduled x
            ∷ a_site_queue x
            ∷ [])
        ≡ 1 ∷ 1 ∷ 1 ∷ 1 ∷ 1 ∷ 1 ∷ 1 ∷ 1 ∷ 1 ∷ [])
      × (routes_for (a_add_no_link x) ≡ [])
unfolding routes_for text_eq
routes_for-links x = (refl, refl)
