-- ===== src/Examples/Texts.antt =====
-- Sequences, results, tags and links, run on small inputs.
use mathlib.Core.List.{flatten}
use spidercheck.Prelude.{
  ℕ, ◌≡◌, Bool, true, ◌||◌, ◌&&◌, List, [], ◌∷◌, some, arith, Text, codes, text_eq, any, All, ltb,
  min,
}
use spidercheck.Results.{Outcome, Result, failure, returned}
use spidercheck.Seq.{batch, text_as_fragments}
use spidercheck.Seq.Batch.{IsBatched, batch-IsBatched}
use spidercheck.Seq.Fragments.{AreFragments, text_as_fragments-AreFragments}
use spidercheck.Parser.{Tag, is_valid_url, all_links, feed, init}
use spidercheck.Parser.Extracts.{names_url, all_links_lem}
use spidercheck.Urls.Plain.{plain}
use spidercheck.Pages.{get_all_valid_links}
use spidercheck.Pages.ValidLinks.{Follows, get_all_valid_links-Follows}
use spidercheck.Examples.{site, root}

abbrev numbers : List ℕ
numbers = 4 ∷ 1 ∷ 3 ∷ 2 ∷ []

abbrev is_small : ℕ → Bool
is_small n = ltb n 3

batch-IsBatched_example :
    (chunks : List (List ℕ)) × (batch 5 numbers 3 ≡ some chunks)
    × (flatten chunks ≡ numbers)
    × IsBatched 3 chunks
batch-IsBatched_example = batch-IsBatched 5 3 numbers (omega arith) (omega arith)

text_as_fragments-AreFragments_example :
    (fragments : List Text) × (text_as_fragments 13 (codes "uno dos tres") 3 5 ≡ some fragments)
    × (flatten fragments ≡ codes "uno dos tres")
    × AreFragments (min 3 5) 5 fragments
text_as_fragments-AreFragments_example =
    text_as_fragments-AreFragments 13 (codes "uno dos tres") 3 5 (omega arith) (omega arith)
      (omega arith)

abbrev failed_check : Result Bool ℕ
failed_check = failure (codes "no") (some 3)

abbrev tags : List Tag
tags =
    record { name = codes "a"; attrs = (codes "href", some (codes "/b")) ∷ [] }
    ∷ record { name = codes "img"; attrs = (codes "src", some (codes "/i.png")) ∷ [] }
    ∷ []

all_links_lem_example :
    any (text_eq (codes "/b")) (all_links (feed tags init))
    ≡ any (names_url (codes "link") (codes "href") (codes "/b")) tags
      || (any (names_url (codes "script") (codes "src") (codes "/b")) tags
          || (any (names_url (codes "img") (codes "src") (codes "/b")) tags
              || (is_valid_url (codes "/b")
                  && any (names_url (codes "a") (codes "href") (codes "/b")) tags)))
all_links_lem_example = all_links_lem (codes "/b") tags

abbrev allow_all : Text → Outcome Bool
allow_all link = returned true

get_all_valid_links-Follows_example :
    All
      (Follows plain site root allow_all)
      (get_all_valid_links plain site root
        (returned allow_all)
        (codes "/b" ∷ codes "http://x/" ∷ [])).0
get_all_valid_links-Follows_example =
    get_all_valid_links-Follows plain site root allow_all (codes "/b" ∷ codes "http://x/" ∷ [])
