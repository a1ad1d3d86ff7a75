-- ===== src/Source/Loader/Refused.antt =====
-- Repositories that the Helm loader refuses (helmloader.go).
use dual_deployment_operator.Base.{
  String, ◌≡◌, refl, Bool, true, false, none, some, Error, Result, ok, err, if◌then◌else◌,
}
use dual_deployment_operator.Library.{Library}
use dual_deployment_operator.Source.Url.{UrlLibrary}
use dual_deployment_operator.Source.Plan.{FileSystem, ChartFiles}
use dual_deployment_operator.Source.Loader.Pull.{load_chart}
use dual_deployment_operator.Source.Loader.{
  Registry, HelmLoader, as_https, url_credentials_error, reject_url_credentials, resolve_digest,
}

-- A URL that cannot be parsed, or that embeds credentials.
abbrev pub IsRefused : {Url : Type 0} → UrlLibrary Url → Result Url → Type 0
IsRefused urls (err e) = Unit
IsRefused urls (ok u) = urls.has_user u ≡ true

guarded : (b : Bool) (x : Error) → b ≡ true → (e : Error) × ((if b then some x else none) ≡ some e)
guarded true x h = (x, refl)
guarded false x h = cc

module _ {S H Client File Chart Url : Type 0} (registry : Registry S H Client File Chart)
    (urls : UrlLibrary Url) (files : FileSystem S) (charts : ChartFiles S) ⦃k : Library⦄ where
  url_credentials-refused :
      (parsed : Result Url)
      → IsRefused urls parsed
      → (e : Error) × (url_credentials_error urls parsed ≡ some e)
  url_credentials-refused (err e) h = (_, refl)
  url_credentials-refused (ok u) h = guarded (urls.has_user u) _ h

  reject_url_credentials-refused :
      (repo : String)
      → IsRefused urls (urls.parse (as_https repo))
      → (e : Error) × (reject_url_credentials urls repo ≡ some e)
  unfolding reject_url_credentials
  reject_url_credentials-refused repo h = url_credentials-refused (urls.parse (as_https repo)) h

  -- A repository whose URL cannot be parsed or embeds credentials is refused by the load of the chart
  -- and by the resolution of its digest with one error, and the world stays as it is: no registry is
  -- called and no directory is created.
  pub load_chart_refused :
      (l : HelmLoader S H) (repo name version : String) (world : S)
      → IsRefused urls (urls.parse (as_https repo))
      → (e : Error) × (load_chart registry urls files charts l repo name version world
          ≡ (err e, world))
        × (resolve_digest registry urls l repo name version world ≡ (err e, world))
  unfolding load_chart resolve_digest
  load_chart_refused l repo name version world h =
      let (e, p) = reject_url_credentials-refused repo h in
      (e, rw (p, load_chart) refl, rw (p, resolve_digest) refl)
