-- ===== src/Parser/Extracts.antt =====
-- What the link extractor of parser.py collects.
use spidercheck.Prelude.{
  ◌≡◌, ◌∙◌, refl, Bool, true, false, ◌&&◌, ◌||◌, List, [], ◌∷◌, none, some, arith, Text, codes,
  text_eq, text_eq_iff, any, any-snoc, any-append, inl, inr, Bool-cases, Option-cases,
}
use spidercheck.Prelude.Chars.{starts_with_ci-lower, lower}
use spidercheck.Rows.Laws.{any-never}
use spidercheck.Parser.{
  is_valid_url, Tag, LinkExtractor, init, add, get_attr, handle_starttag, feed, all_links,
}

-- `is_valid_url` says the same of an address and of the address in lower case.
pub is_valid_url-lower : (url : Text) → is_valid_url (lower url) ≡ is_valid_url url
unfolding is_valid_url
is_valid_url-lower url = simp starts_with_ci-lower

-- `url` is what the tag of this name holds in the attribute.
abbrev pub names_url : Text → Text → Text → Tag → Bool
names_url tag attr url t =
    text_eq t.name tag && (elim (get_attr attr t.attrs) [ none ↦ false | some u ↦ text_eq u url ])

module _ (u : Text) where
  any-add :
      (url : Text) (urls : List Text)
      → any (text_eq u) (add url urls) ≡ any (text_eq u) urls || text_eq url u
  unfolding add
  any-add url urls = elim (Bool-cases (any (text_eq url) urls)) [
    | inr new ↦ ground (arith, any-snoc (text_eq u) urls url, text_eq_iff u url, text_eq_iff url u)
    | inl old ↦ elim (Bool-cases (text_eq url u)) [
      | inl same ↦
          let e : url ≡ u = (text_eq_iff url u).0 same in
          let here : any (text_eq u) urls ≡ true = rw (← e) old in ground arith
      | inr other ↦ ground arith
    ]
  ]

  -- What `handle_starttag` adds to each of the four sets.
  links-handle_starttag :
      (tag : Tag) (e : LinkExtractor)
      → any (text_eq u) (handle_starttag tag e).links
        ≡ any (text_eq u) e.links || (is_valid_url u && names_url (codes "a") (codes "href") u tag)
  unfolding handle_starttag
  links-handle_starttag tag e = elim (Option-cases (get_attr (codes "href") tag.attrs)) [
    | inl absent ↦ ground arith
    | inr (url, found) ↦ ground (arith, any-add url e.links, text_eq_iff url u)
  ]

  styles-handle_starttag :
      (tag : Tag) (e : LinkExtractor)
      → any (text_eq u) (handle_starttag tag e).styles
        ≡ any (text_eq u) e.styles || names_url (codes "link") (codes "href") u tag
  unfolding handle_starttag
  styles-handle_starttag tag e = elim (Option-cases (get_attr (codes "href") tag.attrs)) [
    | inl absent ↦ ground arith
    | inr (url, found) ↦ ground (
      arith,
      any-add url e.styles,
      text_eq_iff tag.name (codes "a"),
      text_eq_iff tag.name (codes "link"),
    )
  ]

  images-handle_starttag :
      (tag : Tag) (e : LinkExtractor)
      → any (text_eq u) (handle_starttag tag e).images
        ≡ any (text_eq u) e.images || names_url (codes "img") (codes "src") u tag
  unfolding handle_starttag
  images-handle_starttag tag e = elim (Option-cases (get_attr (codes "src") tag.attrs)) [
    | inl absent ↦ ground arith
    | inr (url, found) ↦ ground (
      arith,
      any-add url e.images,
      text_eq_iff tag.name (codes "a"),
      text_eq_iff tag.name (codes "link"),
      text_eq_iff tag.name (codes "img"),
    )
  ]

  scripts-handle_starttag :
      (tag : Tag) (e : LinkExtractor)
      → any (text_eq u) (handle_starttag tag e).scripts
        ≡ any (text_eq u) e.scripts || names_url (codes "script") (codes "src") u tag
  unfolding handle_starttag
  scripts-handle_starttag tag e = elim (Option-cases (get_attr (codes "src") tag.attrs)) [
    | inl absent ↦ ground arith
    | inr (url, found) ↦ ground (
      arith,
      any-add url e.scripts,
      text_eq_iff tag.name (codes "a"),
      text_eq_iff tag.name (codes "link"),
      text_eq_iff tag.name (codes "img"),
      text_eq_iff tag.name (codes "script"),
    )
  ]

  any-feed :
      (sel : LinkExtractor → List Text) (mark : Tag → Bool)
      → ((tag : Tag) (e : LinkExtractor)
          → any (text_eq u) (sel (handle_starttag tag e)) ≡ any (text_eq u) (sel e) || mark tag)
      → (tags : List Tag) (e : LinkExtractor)
      → any (text_eq u) (sel (feed tags e)) ≡ any (text_eq u) (sel e) || any mark tags
  unfolding feed any
  any-feed sel mark step [] e = ground arith
  any-feed sel mark step (tag ∷ tags) e =
      ground (arith, any-feed sel mark step tags (handle_starttag tag e), step tag e)

  any-and :
      (b : Bool) (mark : Tag → Bool) (tags : List Tag)
      → any (λ t. b && mark t) tags ≡ b && any mark tags
  unfolding any
  any-and true mark tags = refl
  any-and false mark tags = any-never tags

  module _ (tags : List Tag) where
    links-feed :
        any (text_eq u) (feed tags init).links
        ≡ is_valid_url u && any (names_url (codes "a") (codes "href") u) tags
    unfolding any
    links-feed =
        any-feed (λ x. x.links) (λ t. is_valid_url u && names_url (codes "a") (codes "href") u t)
          links-handle_starttag tags init
        ∙ any-and (is_valid_url u) (names_url (codes "a") (codes "href") u) tags

    styles-feed :
        any (text_eq u) (feed tags init).styles
        ≡ any (names_url (codes "link") (codes "href") u) tags
    unfolding any
    styles-feed = any-feed (λ x. x.styles) _ styles-handle_starttag tags init

    images-feed :
        any (text_eq u) (feed tags init).images ≡ any (names_url (codes "img") (codes "src") u) tags
    unfolding any
    images-feed = any-feed (λ x. x.images) _ images-handle_starttag tags init

    scripts-feed :
        any (text_eq u) (feed tags init).scripts
        ≡ any (names_url (codes "script") (codes "src") u) tags
    unfolding any
    scripts-feed = any-feed (λ x. x.scripts) _ scripts-handle_starttag tags init

    -- `all_links` holds an address, once the tags of a page were fed in, exactly if a `link`,
    -- `script` or `img` tag refers to it, or an `a` tag links to it and it is not under an
    -- excluded path.
    pub all_links_lem :
        any (text_eq u) (all_links (feed tags init))
        ≡ any (names_url (codes "link") (codes "href") u) tags
          || (any (names_url (codes "script") (codes "src") u) tags
              || (any (names_url (codes "img") (codes "src") u) tags
                  || (is_valid_url u && any (names_url (codes "a") (codes "href") u) tags)))
    unfolding all_links
    all_links_lem =
        rw (any-append, any-append, any-append, links-feed, styles-feed, images-feed, scripts-feed)
