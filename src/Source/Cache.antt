-- ===== src/Source/Cache.antt =====
-- internal/source/cachekey.go, rendercache.go and cache.go: renders are kept under a key made of the
-- resolved content id and all other inputs of the render.
pub mod Faithful
pub mod Keys
use dual_deployment_operator.Base.{
  String, Option, none, some, List, [], ◌∷◌, join, Result, ok, err, M, pure, ◌>>=◌, ℤ, pos, leb_ℤ,
  if◌then◌else◌,
}
use dual_deployment_operator.Manifest.{Manifest}
use dual_deployment_operator.Controller.Reconciler.{Source, Mode, mode_seed, mode_shoot}

pub record KeyParts : Type 0 where
  pub source_kind : String
  pub repo_scope : String
  pub resolved_id : String
  pub mode : String
  pub input_hash : String
  pub namespace : String

unfoldable pub key_string : KeyParts → String
key_string k =
    join "|"
      (k.source_kind ∷ k.repo_scope ∷ k.resolved_id ∷ k.mode ∷ k.input_hash ∷ k.namespace ∷ [])

abbrev pub mode_string : Mode → String
mode_string mode_seed = "seed"
mode_string mode_shoot = "shoot"

-- The calls of the LRU library.
pub record Lru (S : Type 0) : Type 0 where
  pub get : String → M S (Option (List Manifest))
  pub add : String → List Manifest → M S (Unit {0})

-- A copy entry by entry; objects are values here, so a copy shares nothing.
unfoldable pub clone_manifests : List Manifest → List Manifest
clone_manifests [] = []
clone_manifests (m ∷ ms) =
    record { unstructured = m.unstructured; origin = m.origin } ∷ clone_manifests ms

-- `resolve` gives the content id and the scope, or an error, which may be that of a source that has
-- no sound key.
pub record CachingSource (S : Type 0) : Type 0 where
  pub inner : Source S
  pub cache : Lru S
  pub source_kind : String
  pub resolve : Mode → M S (Result (String × String))
  pub input_hash : String

unfoldable pub clone_found : Option (List Manifest) → Option (List Manifest)
unfolding clone_manifests
clone_found none = none
clone_found (some ms) = some (clone_manifests ms)

module _ {S : Type 0} where
  unfoldable pub cache_get : Lru S → String → M S (Option (List Manifest))
  unfolding clone_found
  cache_get lru key = do found ← lru.get key; pure (clone_found found)

  unfoldable pub cache_put : Lru S → String → List Manifest → M S (Unit {0})
  unfolding clone_manifests
  cache_put lru key ms = lru.add key (clone_manifests ms)

  unfoldable pub key_of : CachingSource S → Mode → String → String × String → String
  unfolding key_string
  key_of c mode namespace (id, scope) = key_string (record {
    source_kind = c.source_kind;
    repo_scope = scope;
    resolved_id = id;
    mode = mode_string mode;
    input_hash = c.input_hash;
    namespace = namespace;
  })

  -- A failure is never cached.
  unfoldable pub store_render :
      CachingSource S → String → Result (List Manifest) → M S (Result (List Manifest))
  unfolding cache_put
  store_render c key (err e) = pure (err e)
  store_render c key (ok ms) = do _ ← cache_put c.cache key ms; pure (ok ms)

  unfoldable pub render_found :
      CachingSource S
      → Mode
      → String
      → String
      → Option (List Manifest)
      → M S (Result (List Manifest))
  unfolding store_render
  render_found c mode namespace key (some ms) = pure (ok ms)
  render_found c mode namespace key none = do
    rendered ← c.inner.render mode namespace
    store_render c key rendered

  -- A source that cannot be resolved is rendered without the cache.
  unfoldable pub render_resolved :
      CachingSource S → Mode → String → Result (String × String) → M S (Result (List Manifest))
  unfolding cache_get render_found key_of
  render_resolved c mode namespace (err e) = c.inner.render mode namespace
  render_resolved c mode namespace (ok found) = do
    cached ← cache_get c.cache (key_of c mode namespace found)
    render_found c mode namespace (key_of c mode namespace found) cached

  unfoldable pub render_cached : CachingSource S → Mode → String → M S (Result (List Manifest))
  unfolding render_resolved
  render_cached c mode namespace = do
    resolved ← c.resolve mode
    render_resolved c mode namespace resolved

abbrev pub default_render_cache_size : ℤ
default_render_cache_size = pos 32

-- `lru.New` gives the calls of a new cache of a size.
module _ {S : Type 0} (new_lru : ℤ → Result (Lru S)) where
  unfoldable pub new_render_cache : ℤ → Result (Lru S)
  new_render_cache size = new_lru (if leb_ℤ size (pos 0) then default_render_cache_size else size)

  -- NewRenderCache: without a cache, if none can be made.
  unfoldable pub render_cache_or_none : Option (Lru S)
  unfolding new_render_cache
  render_cache_or_none = elim (new_render_cache default_render_cache_size) [
    | ok lru ↦ some lru
    | err e ↦ none
  ]
