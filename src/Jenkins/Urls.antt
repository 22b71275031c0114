-- ===== src/Jenkins/Urls.antt =====
-- internal/ci/jenkins/urls.go: `stripCredentials`. Reading and printing a URL are net/url's, and parameters.
pub mod Laws
use jenkins_bench.Prelude.{
  Bool, true, false, not, ◌&&◌, ◌||◌, Option, none, some, List, [], ◌∷◌, ◌++◌, drop, ◌==◌,
  if◌then◌else◌,
}
use jenkins_bench.Prelude.Text.{Text, codes, is_empty, has_rune, has_prefix, trim_space}
use jenkins_bench.Prelude.{ℕ}

-- The fields of url.URL that the function reads or clears; `kept` is all the rest.
pub record Url : Type 0 where
  pub scheme : Text
  pub host : Text
  pub user : Option Text
  pub raw_query : Text
  pub force_query : Bool
  pub fragment : Text
  pub raw_fragment : Text
  pub kept : Text

-- net/url: Parse, where `none` is its error, and URL.String.
pub record NetUrl : Type 0 where
  pub parse : Text → Option Url
  pub print : Url → Text

-- The text before the first rune that passes a test, and from it on.
abbrev pub before : (ℕ → Bool) → Text → Text
before p [] = []
before p (c ∷ s) = if p c then [] else c ∷ before p s

abbrev pub from : (ℕ → Bool) → Text → Text
from p [] = []
from p (c ∷ s) = if p c then c ∷ s else from p s

-- What follows the last `d`, or all where there is none.
abbrev pub after_last : ℕ → Text → Text
after_last d [] = []
after_last d (c ∷ s) = if has_rune d s then after_last d s else if c == d then s else c ∷ s

-- The text up to and with the first "://", and what follows it.
unfoldable pub cut_scheme : Text → Text × Text
cut_scheme [] = ([], [])
cut_scheme (c ∷ s) =
    let found = has_prefix (c ∷ s) (codes "://") in
    let (scheme, rest) = cut_scheme s in
    if found
    then (codes "://", drop 3 (c ∷ s))
    else if is_empty scheme
    then ([], c ∷ s)
    else (c ∷ scheme, rest)

abbrev pub is_slash : ℕ → Bool
is_slash c = c == b'/'

abbrev pub ends_path : ℕ → Bool
ends_path c = c == b'?' || c == b'#'

-- The cuts by hand, behind the scheme: the query and the fragment, and the userinfo.
unfoldable pub strip_rest : Text → Text
strip_rest rest =
    let short = before ends_path rest in
    after_last b'@' (before is_slash short) ++ from is_slash short

abbrev pub cleared : Url → Url
cleared u = record u {
  user = none;
  raw_query = [];
  force_query = false;
  fragment = [];
  raw_fragment = [];
}

unfoldable pub strip_by_hand : Text → Text
unfolding cut_scheme strip_rest
strip_by_hand raw = let (scheme, rest) = cut_scheme raw in scheme ++ strip_rest rest

-- stripCredentials
unfoldable pub strip_credentials : NetUrl → Text → Text
strip_credentials net text =
    let raw = trim_space text in
    if is_empty raw then raw else (elim (net.parse raw) [
      | none ↦ strip_by_hand raw
      | some u ↦
          if not (is_empty u.scheme) && not (is_empty u.host)
          then net.print (cleared u)
          else strip_by_hand raw
    ])
