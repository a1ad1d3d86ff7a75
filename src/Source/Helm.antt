-- ===== src/Source/Helm.antt =====
-- internal/source/helm.go: the values of a chart and its render. `Chart` is the loaded chart.
pub mod Values
use dual_deployment_operator.Base.{
  String, Bool, Option, none, some, List, [], ◌∷◌, ◌==◌, if◌then◌else◌, Error, Result, ok, err,
  plain, concat, is_some, M, pure, ◌>>=◌,
}
use dual_deployment_operator.Json.{Value, Fields, end, text, lookup, insert}
use dual_deployment_operator.Library.{Library}
use dual_deployment_operator.Api.{RawJson, HelmSource}
use dual_deployment_operator.Manifest.{Manifest, origin_upstream, parse, apply_namespace}
use dual_deployment_operator.Controller.Reconciler.{Source, Mode, mode_seed, mode_shoot}
use dual_deployment_operator.Source.Cache.{mode_string}

-- The chart loader, the JSON decoder, `chartutil.CoalesceTables`, and the client-only dry run of an
-- installation, which takes the release name, the namespace and the values.
pub record HelmLibrary (S Chart : Type 0) : Type 0 where
  pub load : String → String → String → M S (Result Chart)
  pub unmarshal_values : String → Result Fields
  pub coalesce_tables : Fields → Fields → Fields
  pub install : Chart → String → String → Fields → M S (Result String)

abbrev pub wrapped : String → Error → Error
wrapped prefix e = record e { message = concat (prefix ∷ e.message ∷ []) }

unfoldable pub mode_values : HelmSource → Mode → Option RawJson
mode_values spec mode_seed = spec.seed_values
mode_values spec mode_shoot = spec.shoot_values

-- What both kinds of source do with the text that they have rendered.
module _ ⦃k : Library⦄ where
  unfoldable pub parse_rendered : String → String → Result (List Manifest)
  parse_rendered namespace raw = elim (parse raw origin_upstream) [
    | err e ↦ err (wrapped "source: parse rendered manifests: " e)
    | ok ms ↦ ok (apply_namespace ms namespace)
  ]

module _ {S Chart : Type 0} (lib : HelmLibrary S Chart) where
  -- The body of the loop of `mergeValues`.
  unfoldable pub merge_one : Option RawJson → Fields → Result Fields
  merge_one none base = ok base
  merge_one (some j) base = if j.raw == "" then ok base else elim (lib.unmarshal_values j.raw) [
    | err e ↦ err (wrapped "source: parse values: " e)
    | ok m ↦ ok (lib.coalesce_tables m base)
  ]

  unfoldable pub merge_values : Option RawJson → Option RawJson → Result Fields
  unfolding merge_one
  merge_values common mode_specific = elim (merge_one common end) [
    | err e ↦ err e
    | ok base ↦ merge_one mode_specific base
  ]

  -- The key `mode` is the operator's.
  unfoldable pub with_mode : Mode → Fields → Result Fields
  with_mode mode values =
      if is_some (lookup "mode" values)
      then err (plain "source: 'mode' is operator-controlled and must not be set in values")
      else ok (insert "mode" (text (mode_string mode)) values)

  unfoldable pub helm_values : HelmSource → Mode → Result Fields
  unfolding merge_values with_mode mode_values
  helm_values spec mode = elim (merge_values spec.values (mode_values spec mode)) [
    | err e ↦ err e
    | ok values ↦ with_mode mode values
  ]

  module _ ⦃k : Library⦄ where
    unfoldable pub helm_rendered : Mode → String → Result String → Result (List Manifest)
    unfolding parse_rendered
    helm_rendered mode namespace (err e) =
        err (wrapped (concat ("source: helm render (mode=" ∷ mode_string mode ∷ "): " ∷ [])) e)
    helm_rendered mode namespace (ok raw) = parse_rendered namespace raw

    unfoldable pub install_chart :
        HelmSource → Mode → String → Chart → Result Fields → M S (Result (List Manifest))
    unfolding helm_rendered
    install_chart spec mode namespace chart (err e) = pure (err e)
    install_chart spec mode namespace chart (ok values) = do
      raw ← lib.install chart spec.name namespace values
      pure (helm_rendered mode namespace raw)

    unfoldable pub render_chart :
        HelmSource → Mode → String → Result Chart → M S (Result (List Manifest))
    unfolding install_chart helm_values
    render_chart spec mode namespace (err e) = pure (err (wrapped "source: load chart: " e))
    render_chart spec mode namespace (ok chart) =
        install_chart spec mode namespace chart (helm_values spec mode)

    unfoldable pub helm_source : HelmSource → Source S
    unfolding render_chart
    helm_source spec = record {
      render = λ mode namespace. do
        loaded ← lib.load spec.repo spec.name spec.version
        render_chart spec mode namespace loaded;
    }
