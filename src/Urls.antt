-- ===== src/Urls.antt =====
-- The interface of Python's `urllib.parse` that the program calls. The program's definitions take
-- it as an argument; `Plain` is an instance of it for examples.
pub mod Plain
use spidercheck.Prelude.{Text}
use spidercheck.Results.{Outcome}

pub record SplitUrl : Type 0 where
  pub scheme : Text
  pub netloc : Text
  pub path : Text
  pub params : Text
  pub query : Text
  pub fragment : Text

-- `urlparse` and `urljoin` raise `ValueError` on a host with unbalanced brackets.
pub record UrlLib : Type 0 where
  pub urlparse : Text → Outcome SplitUrl
  pub urlunparse : SplitUrl → Text
  pub urljoin : Text → Text → Outcome Text
