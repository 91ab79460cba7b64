-- ===== src/Pages/ValidLinks.antt =====
-- Which links `Page.get_all_valid_links` of src/spidercheck/models.py yields.
use spidercheck.Prelude.{
  ◌≡◌, ◌≢◌, ◌⊎◌, refl, Bool, true, false, not, ◌&&◌, List, [], ◌∷◌, Option, none, some, arith, Text,
  text_eq, text_eq_iff, All, if◌then◌else◌, inl, inr, Bool-cases,
}
use spidercheck.Results.{Outcome, returned, raised, chain, chain-eq-returned, Outcome-cases}
use spidercheck.Models.{Site, Page}
use spidercheck.Urls.{SplitUrl, UrlLib}
use spidercheck.Sites.{differs, local_parts, is_local}
use spidercheck.Pages.{
  get_relative_url, get_full_url, valid_link, valid_links, yield_next, get_all_valid_links,
}

module _ (urls : UrlLib) (s : Site) (p : Page) (can_fetch : Text → Outcome Bool) where
  open urls use {urljoin, urlparse}

  -- A link that may be followed: it has the scheme and the host of the site, it is not
  -- the page itself, and the robots may fetch it;
  -- it is passed on relative to the page.
  pub record Follows (yielded : Text) : Type 0 where
    pub full : Text
    pub relative : Text
    pub link : Text
    pub url : Text
    pub full_url : get_full_url urls s p ≡ returned full
    pub relative_url : get_relative_url urls s p ≡ returned relative
    pub target : urljoin full link ≡ returned url
    pub elsewhere : url ≢ full
    pub parts : SplitUrl
    pub parsed : urlparse url ≡ returned parts
    pub own_scheme : (parts.scheme ≡ []) ⊎ (parts.scheme ≡ s.scheme)
    pub own_netloc : (parts.netloc ≡ []) ⊎ (parts.netloc ≡ s.netloc)
    pub allowed : can_fetch link ≡ returned true
    pub passed : urljoin relative link ≡ returned yielded

  blank_or_own : (x own : Text) → differs urls x own ≡ false → (x ≡ []) ⊎ (x ≡ own)
  blank_or_own [] own h = inl refl
  blank_or_own (c ∷ x) own h = inr (ground (arith, text_eq_iff (c ∷ x) own))

  -- An address of the site has no host or that of the site, and so with the scheme.
  local-parts :
      (url : Text)
      → is_local urls s url ≡ returned true
      → (parts : SplitUrl) × (urlparse url ≡ returned parts)
        × ((parts.scheme ≡ []) ⊎ (parts.scheme ≡ s.scheme))
        × ((parts.netloc ≡ []) ⊎ (parts.netloc ≡ s.netloc))
  unfolding is_local local_parts
  local-parts url h = elim (Outcome-cases (urlparse url)) [
    | inr (e, stop) ↦ let k = rw (stop, is_local) at h in cc
    | inl (parts, parsed) ↦
        let k = rw (parsed, is_local) at h in
        let both : not (differs urls parts.scheme s.scheme)
              && not (differs urls parts.netloc s.netloc)
            ≡ true =
          cc in
        (
          parts,
          parsed,
          blank_or_own parts.scheme s.scheme (ground arith),
          blank_or_own parts.netloc s.netloc (ground arith),
        )
  ]

  -- The test of robots.txt is made for local links only.
  allowed-both :
      (local : Bool) (link : Text)
      → (if local then can_fetch link else returned false) ≡ returned true
      → (local ≡ true) × (can_fetch link ≡ returned true)
  allowed-both true link h = (refl, h)
  allowed-both false link h = cc

  valid_link-Follows :
      (link yielded : Text)
      → valid_link urls s p can_fetch link ≡ returned (some yielded)
      → Follows yielded
  unfolding valid_link
  valid_link-Follows link yielded h =
      let (full, full_url, h1) = chain-eq-returned (get_full_url urls s p) _ h in
      let (url, target, h2) = chain-eq-returned (urljoin full link) _ h1 in
      elim (Bool-cases (text_eq url full)) [
        | inl here ↦ let k = rw here at h2 in cc
        | inr there ↦
            let pass : Bool → Outcome (Option Text) = λ allowed.
              if allowed
              then (chain (get_relative_url urls s p)
                  λ relative. chain (urljoin relative link) λ joined. returned (some joined))
              else returned none in
            let (local, inside, h3) =
              chain-eq-returned (is_local urls s url)
                (λ l. chain (if l then can_fetch link else returned false) pass) (rw there at h2) in
            let (both, fetched, h4) =
              chain-eq-returned (if local then can_fetch link else returned false) pass h3 in
            elim (Bool-cases both) [
              | inr barred ↦ let k = rw barred at h4 in cc
              | inl open' ↦
                  let (own, allowed) = allowed-both local link (rw open' at fetched) in
                  let (parts, parsed, scheme, netloc) = local-parts url (rw own at inside) in
                  let (relative, relative_url, h5) =
                    chain-eq-returned (get_relative_url urls s p)
                      (λ r. chain (urljoin r link) λ joined. returned (some joined))
                      (rw open' at h4) in
                  let (joined, passed, h6) = chain-eq-returned (urljoin relative link) _ h5 in
                  record {
                    full = full;
                    relative = relative;
                    link = link;
                    url = url;
                    full_url = full_url;
                    relative_url = relative_url;
                    target = target;
                    elsewhere = λ e. ground (arith, text_eq_iff url full);
                    parts = parts;
                    parsed = parsed;
                    own_scheme = scheme;
                    own_netloc = netloc;
                    allowed = allowed;
                    passed = cc;
                  }
            ]
      ]

  -- If robots.txt could be read, every link that `get_all_valid_links` yields, up to where it ends, comes
  -- from a link that leads to another address than that of the page, whose scheme is none or that of
  -- the site and whose host is none or that of the site, and that robots.txt allows; and it is that
  -- link joined to the page's relative address.
  pub get_all_valid_links-Follows :
      (links : List Text) → All Follows (get_all_valid_links urls s p (returned can_fetch) links).0
  unfolding get_all_valid_links
  get_all_valid_links-Follows [] = tt
  get_all_valid_links-Follows (link ∷ links) =
      go (valid_link urls s p can_fetch link) refl (get_all_valid_links-Follows links)
    where
      go :
          (o : Outcome (Option Text))
          → valid_link urls s p can_fetch link ≡ o
          → All Follows (valid_links urls s p can_fetch links).0
          → All Follows (yield_next o (valid_links urls s p can_fetch links)).0
      go (returned none) e later = later
      go (returned (some yielded)) e later = (valid_link-Follows link yielded e, later)
      go (raised x) e later = tt
