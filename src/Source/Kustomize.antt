-- ===== src/Source/Kustomize.antt =====
-- internal/source/kustomize.go. `Tree` is the result of a kustomize build.
use dual_deployment_operator.Base.{String, List, [], ◌∷◌, Result, ok, err, concat, M, pure, ◌>>=◌}
use dual_deployment_operator.Library.{Library}
use dual_deployment_operator.Api.{KustomizeSource}
use dual_deployment_operator.Manifest.{Manifest}
use dual_deployment_operator.Controller.Reconciler.{Source, Mode, mode_seed, mode_shoot}
use dual_deployment_operator.Source.Cache.{mode_string}
use dual_deployment_operator.Source.Helm.{wrapped, parse_rendered}

-- The root resolver, which gives a path and its clean-up, and the kustomize library.
pub record KustomizeLibrary (S Tree : Type 0) : Type 0 where
  pub resolve : String → String → M S (Result (String × M S (Unit {0})))
  pub run : String → M S (Result Tree)
  pub as_yaml : Tree → Result String

unfoldable pub sub_path : KustomizeSource → Mode → String
sub_path spec mode_seed = spec.seed_path
sub_path spec mode_shoot = spec.shoot_path

abbrev pub in_mode : String → Mode → String
in_mode prefix mode = concat (prefix ∷ " (mode=" ∷ mode_string mode ∷ "): " ∷ [])

module _ {S Tree : Type 0} (lib : KustomizeLibrary S Tree) ⦃k : Library⦄ where
  unfoldable pub built : Mode → String → Result Tree → Result (List Manifest)
  unfolding parse_rendered
  built mode namespace (err e) = err (wrapped (in_mode "source: kustomize build" mode) e)
  built mode namespace (ok tree) = elim (lib.as_yaml tree) [
    | err e ↦ err (wrapped "source: kustomize serialize: " e)
    | ok raw ↦ parse_rendered namespace raw
  ]

  -- The clean-up is deferred to the end.
  unfoldable pub build_root :
      Mode → String → Result (String × M S (Unit {0})) → M S (Result (List Manifest))
  unfolding built
  build_root mode namespace (err e) =
      pure (err (wrapped (in_mode "source: resolve kustomize root" mode) e))
  build_root mode namespace (ok (root, cleanup)) = do
    tree ← lib.run root
    _ ← cleanup
    pure (built mode namespace tree)

  unfoldable pub kustomize_source : KustomizeSource → Source S
  unfolding build_root sub_path
  kustomize_source spec = record {
    render = λ mode namespace. do
      resolved ← lib.resolve spec.url (sub_path spec mode)
      build_root mode namespace resolved;
  }
