-- ===== src/Source/Url.antt =====
-- What the two fetchers share: the URL library, and the host of a URL (helmloader.go).
use dual_deployment_operator.Base.{
  String, Bool, List, ◌==◌, if◌then◌else◌, Result, ok, err, M, Option,
}
use dual_deployment_operator.Source.Credentials.{Creds}

-- `net/url`, and `filepath.Join`. `query` is the first value of a key of the query, or "".
pub record UrlLibrary (Url : Type 0) : Type 0 where
  pub parse : String → Result Url
  pub has_user : Url → Bool
  pub host : Url → String
  pub path : Url → String
  pub query : String → Url → String
  pub with_path : String → Url → Url
  pub without_query : Url → Url
  pub print : Url → String
  pub join_path : List String → String

-- The field `resolve` of a fetcher: nothing if it is anonymous.
abbrev pub Resolve : Type 0 → Type 0
Resolve S = Option (String → M S (Result Creds))

module _ {Url : Type 0} (urls : UrlLibrary Url) where
  abbrev pub host_or : String → Result Url → String
  host_or raw (err e) = raw
  host_or raw (ok u) = if urls.host u == "" then raw else urls.host u

  unfoldable pub host_of : String → String
  host_of raw = host_or raw (urls.parse raw)
