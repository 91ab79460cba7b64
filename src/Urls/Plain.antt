-- ===== src/Urls/Plain.antt =====
-- An instance of the interface of `urllib.parse` to run the program's definitions with: addresses
-- `scheme://netloc/path?query#fragment` and paths, where no path has dot segments and no host has
-- brackets, so that nothing raises.
use spidercheck.Prelude.{
  ℕ, [], ◌∷◌, ◌++◌, Option, none, some, Text, codes, drop, ◌==◌, if◌then◌else◌,
}
use spidercheck.Prelude.Chars.{starts_with_ci}
use spidercheck.Results.{returned}
use spidercheck.Urls.{SplitUrl, UrlLib}

-- What stands in front of the first `c`, and what behind it.
cut : ℕ → Text → Text × Text
cut c [] = ([], [])
cut c (x ∷ s) = let r = cut c s in if x == c then ([], s) else (x ∷ r.0, r.1)

-- What stands in front of the first `c`, and the rest with it.
span : ℕ → Text → Text × Text
span c [] = ([], [])
span c (x ∷ s) = let r = span c s in if x == c then ([], x ∷ s) else (x ∷ r.0, r.1)

-- What stands in front of `://`, and what behind it.
cut_scheme : Text → Option (Text × Text)
unfolding starts_with_ci
cut_scheme [] = none
cut_scheme (x ∷ s) =
    let later = cut_scheme s in
    if starts_with_ci (codes "://") (x ∷ s)
    then some ([], drop 3 (x ∷ s))
    else elim later [ none ↦ none | some r ↦ some (x ∷ r.0, r.1) ]

split_address : Text → Text → Text → SplitUrl
unfolding cut_scheme span
split_address rest query fragment = elim (cut_scheme rest) [
  | none ↦ record {
    scheme = [];
    netloc = [];
    path = rest;
    params = [];
    query = query;
    fragment = fragment;
  }
  | some r ↦ record {
    scheme = r.0;
    netloc = (span b'/' r.1).0;
    path = (span b'/' r.1).1;
    params = [];
    query = query;
    fragment = fragment;
  }
]

unfoldable pub split_url : Text → SplitUrl
unfolding split_address cut
split_url u = split_address (cut b'?' (cut b'#' u).0).0 (cut b'?' (cut b'#' u).0).1 (cut b'#' u).1

after_mark : ℕ → Text → Text
after_mark c [] = []
after_mark c (x ∷ s) = c ∷ x ∷ s

host_part : SplitUrl → Text
host_part i = elim i.netloc [ [] ↦ [] | c ∷ host ↦ i.scheme ++ (codes "://" ++ (c ∷ host)) ]

unfoldable pub unsplit_url : SplitUrl → Text
unfolding after_mark host_part
unsplit_url i = host_part i ++ (i.path ++ (after_mark b'?' i.query ++ after_mark b'#' i.fragment))

-- The path up to its last `/`.
directory : Text → Text
directory [] = []
directory (x ∷ s) =
    let later = directory s in
    elim later [ [] ↦ (if x == b'/' then x ∷ [] else []) | c ∷ r ↦ x ∷ c ∷ r ]

join_path : Text → Text → Text
unfolding directory
join_path base [] = base
join_path base (c ∷ s) = if c == b'/' then c ∷ s else directory base ++ (c ∷ s)

unfoldable pub join_url : Text → Text → Text
unfolding cut_scheme join_path split_url unsplit_url
join_url base u = elim (cut_scheme u) [
  | some r ↦ u
  | none ↦ unsplit_url (record (split_url base) {
    path = join_path (split_url base).path u;
    query = [];
    fragment = [];
  })
]

abbrev pub plain : UrlLib
plain = record {
  urlparse = λ u. returned (split_url u);
  urlunparse = unsplit_url;
  urljoin = λ base u. returned (join_url base u);
}
