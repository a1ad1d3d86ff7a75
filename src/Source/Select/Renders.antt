-- ===== src/Source/Select/Renders.antt =====
-- The calls that a render makes: of a chart, of a kustomize root, and through the cache.
use dual_deployment_operator.Base.{
  String, Option, none, some, List, Result, ok, err, M, Keeps, Keeps-pure, Keeps-bind,
}
use dual_deployment_operator.Json.{Fields}
use dual_deployment_operator.Library.{Library}
use dual_deployment_operator.Api.{HelmSource, KustomizeSource}
use dual_deployment_operator.Manifest.{Manifest}
use dual_deployment_operator.Controller.Reconciler.{Source, Mode}
use dual_deployment_operator.Source.Cache.{
  Lru, CachingSource, cache_get, cache_put, store_render, render_found, render_resolved,
  render_cached, key_of,
}
use dual_deployment_operator.Source.Helm.{
  HelmLibrary, helm_source, render_chart, install_chart, helm_values, helm_rendered,
}
use dual_deployment_operator.Source.Kustomize.{
  KustomizeLibrary, kustomize_source, build_root, sub_path,
}
use dual_deployment_operator.Source.Git.Calls.{CleanUpKeeps}

abbrev pub LruKeeps : {S : Type 0} → (S → Type 0) → Option (Lru S) → Type 0
LruKeeps P none = Unit
LruKeeps P (some lru) =
    ((key : String) → Keeps P (lru.get key))
    × ((key : String) (ms : List Manifest) → Keeps P (lru.add key ms))

-- A source renders without any other effect than those that keep `P`.
abbrev pub RenderKeeps : {S : Type 0} → (S → Type 0) → Source S → Type 0
RenderKeeps P src = (mode : Mode) (namespace : String) → Keeps P (src.render mode namespace)

module _ {S : Type 0} (P : S → Type 0) ⦃k : Library⦄ (c : CachingSource S)
    (inner : RenderKeeps P c.inner) (lru : LruKeeps P (some c.cache))
    (resolves : (mode : Mode) → Keeps P (c.resolve mode)) where
  store_render-Keeps : (key : String) (r : Result (List Manifest)) → Keeps P (store_render c key r)
  unfolding store_render cache_put
  store_render-Keeps key (err e) = Keeps-pure (err e)
  store_render-Keeps key (ok ms) = record { at = λ s p. (lru.1 key _).at s p }

  render_found-Keeps :
      (mode : Mode) (namespace key : String) (found : Option (List Manifest))
      → Keeps P (render_found c mode namespace key found)
  unfolding render_found
  render_found-Keeps mode namespace key (some ms) = Keeps-pure (ok ms)
  render_found-Keeps mode namespace key none =
      Keeps-bind _ _ (inner mode namespace) λ r. store_render-Keeps key r

  render_resolved-Keeps :
      (mode : Mode) (namespace : String) (found : Result (String × String))
      → Keeps P (render_resolved c mode namespace found)
  unfolding render_resolved cache_get
  render_resolved-Keeps mode namespace (err e) = record { at = (inner mode namespace).at }
  render_resolved-Keeps mode namespace (ok found) = record {
    at = λ s p.
        (render_found-Keeps mode namespace (key_of c mode namespace found) _).at _
          ((lru.0 (key_of c mode namespace found)).at s p);
  }

  pub render_cached-Keeps :
      (mode : Mode) (namespace : String) → Keeps P (render_cached c mode namespace)
  unfolding render_cached
  render_cached-Keeps mode namespace =
      Keeps-bind _ _ (resolves mode) λ found. render_resolved-Keeps mode namespace found

module _ {S Chart : Type 0} (P : S → Type 0) (lib : HelmLibrary S Chart) ⦃k : Library⦄
    (loads : (repo name version : String) → Keeps P (lib.load repo name version))
    (installs : (chart : Chart) (name ns : String) (values : Fields)
      → Keeps P (lib.install chart name ns values)) where
  install_chart-Keeps :
      (spec : HelmSource) (mode : Mode) (namespace : String) (chart : Chart)
      (values : Result Fields)
      → Keeps P (install_chart lib spec mode namespace chart values)
  unfolding install_chart
  install_chart-Keeps spec mode namespace chart (err e) = Keeps-pure (err e)
  install_chart-Keeps spec mode namespace chart (ok values) =
      Keeps-bind _ _ (installs chart spec.name namespace values)
        λ raw. Keeps-pure (helm_rendered lib mode namespace raw)

  render_chart-Keeps :
      (spec : HelmSource) (mode : Mode) (namespace : String) (loaded : Result Chart)
      → Keeps P (render_chart lib spec mode namespace loaded)
  unfolding render_chart
  render_chart-Keeps spec mode namespace (err e) = Keeps-pure _
  render_chart-Keeps spec mode namespace (ok chart) = record {
    at = (install_chart-Keeps spec mode namespace chart (helm_values lib spec mode)).at;
  }

  pub helm_source-RenderKeeps : (spec : HelmSource) → RenderKeeps P (helm_source lib spec)
  unfolding helm_source
  helm_source-RenderKeeps spec mode namespace =
      Keeps-bind _ _ (loads spec.repo spec.name spec.version)
        λ loaded. render_chart-Keeps spec mode namespace loaded

module _ {S Tree : Type 0} (P : S → Type 0) (lib : KustomizeLibrary S Tree) ⦃k : Library⦄
    (resolves : (url path : String) (s : S)
      → P s
      → P (lib.resolve url path s).1 × CleanUpKeeps P (lib.resolve url path s).0)
    (runs : (root : String) → Keeps P (lib.run root)) where
  build_root-kept :
      (mode : Mode) (namespace : String) (r : Result (String × M S (Unit {0}))) (s : S)
      → P s
      → CleanUpKeeps P r
      → P (build_root lib mode namespace r s).1
  unfolding build_root
  build_root-kept mode namespace (err e) s p cleans = p
  build_root-kept mode namespace (ok (root, cleanup)) s p cleans = cleans.at _ ((runs root).at s p)

  pub kustomize_source-RenderKeeps :
      (spec : KustomizeSource) → RenderKeeps P (kustomize_source lib spec)
  unfolding kustomize_source
  kustomize_source-RenderKeeps spec mode namespace = record {
    at = λ s p.
        let (p', cleans) = resolves spec.url (sub_path spec mode) s p in
        build_root-kept mode namespace _ _ p' cleans;
  }
