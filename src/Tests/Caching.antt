-- ===== src/Tests/Caching.antt =====
-- The theorems on sources, at concrete inputs.
use dual_deployment_operator.Base.{
  ◌≡◌, refl, ◌⊎◌, String, Option, none, some, List, [], ◌∷◌, ◌==◌, arith, eq_iff, if◌then◌else◌, ok,
}
use dual_deployment_operator.Json.{field, end, text}
use dual_deployment_operator.Manifest.{Manifest}
use dual_deployment_operator.Controller.Reconciler.{Mode, mode_seed, mode_shoot}
use dual_deployment_operator.Source.Cache.{Lru, CachingSource, key_of, render_cached}
use dual_deployment_operator.Source.Cache.Faithful.{
  DocumentedLru, IsSound, IsKeyed, render_cached-IsSound,
}
use dual_deployment_operator.Source.Helm.{HelmLibrary}
use dual_deployment_operator.Tests.World.{manifest_of}

abbrev Shelf : Type 0
Shelf = List (String × List Manifest)

abbrev find : Shelf → String → Option (List Manifest)
find [] key = none
find ((j, ms) ∷ shelf) key = if j == key then some ms else find shelf key

abbrev lru : Lru Shelf
lru = record {
  get = λ key shelf. (find shelf key, shelf);
  add = λ key ms shelf. (tt, (key, ms) ∷ shelf);
}

-- A render names the cluster that it is for.
abbrev render_of : Mode → List Manifest
render_of mode_seed = manifest_of "ConfigMap" "seed" ∷ []
render_of mode_shoot = manifest_of "ConfigMap" "shoot" ∷ []

abbrev caching : CachingSource Shelf
caching = record {
  inner = record { render = λ mode ns shelf. (ok (render_of mode), shelf) };
  cache = lru;
  source_kind = "helm";
  resolve = λ mode shelf. (ok ("sha256:1", "oci:registry"), shelf);
  input_hash = "h";
}

-- The content of a key of this source.
abbrev Content : String → List Manifest → Type 0
Content key ms =
    (mode : Mode) × (ns : String) × (key ≡ key_of caching mode ns ("sha256:1", "oci:registry"))
    × (ms ≡ render_of mode)

find-add :
    (shelf : Shelf) (key j : String) (ms stored : List Manifest)
    → find ((key, ms) ∷ shelf) j ≡ some stored
    → ((j ≡ key) × (stored ≡ ms)) ⊎ (find shelf j ≡ some stored)
find-add shelf key j ms stored h = ground (arith, eq_iff key j)

documented_lru : DocumentedLru lru find
documented_lru = record {
  get_found = λ shelf key ms h. h;
  get_view = λ shelf key j ms h. h;
  add_view = find-add;
}

keyed : IsKeyed caching find Content
keyed = record {
  resolve_view = λ mode shelf. refl;
  render_view = λ mode ns shelf. refl;
  content =
      λ mode ns shelf shelf' found ms resolved rendered. (mode, ns, ground arith, ground arith);
}

render_cached-IsSound_example :
    IsSound caching find Content (render_cached caching mode_seed "garden" []).1
    × ((found : String × String) (ms : List Manifest)
        → (caching.resolve mode_seed []).0 ≡ ok found
        → (render_cached caching mode_seed "garden" []).0 ≡ ok ms
        → Content (key_of caching mode_seed "garden" found) ms)
render_cached-IsSound_example =
    render_cached-IsSound caching find Content documented_lru keyed mode_seed "garden" []
      (record { stored = λ key ms h. cc })

abbrev helm : HelmLibrary Shelf String
helm = record {
  load = λ repo name version shelf. (ok name, shelf);
  unmarshal_values = λ raw. ok (field "replicas" (text raw) end);
  coalesce_tables = λ first second. first;
  install = λ chart name ns values shelf. (ok "", shelf);
}
