-- ===== src/Source/Cache/Faithful.antt =====
-- What a caching source gives (cache.go), against what its inner source gives.
use dual_deployment_operator.Base.{
  ◌≡◌, refl, ◌⊎◌, inl, inr, sym, subst, ap, ◌∙◌, String, Option, none, some, List, [], ◌∷◌, Result,
  ok, err, arith,
}
use dual_deployment_operator.Manifest.{Manifest}
use dual_deployment_operator.Controller.Reconciler.{Mode}
use dual_deployment_operator.Source.Cache.{
  Lru, CachingSource, clone_manifests, clone_found, cache_get, cache_put, key_of, store_render,
  render_found, render_resolved, render_cached,
}

clone_manifests-eq : (ms : List Manifest) → clone_manifests ms ≡ ms
unfolding clone_manifests
clone_manifests-eq [] = refl
clone_manifests-eq (m ∷ ms) = ap (λ rest. m ∷ rest) (clone_manifests-eq ms)

clone_found-some :
    (found : Option (List Manifest)) (ms : List Manifest)
    → clone_found found ≡ some ms
    → found ≡ some ms
unfolding clone_found
clone_found-some none ms h = cc
clone_found-some (some stored) ms h = ap some (sym (clone_manifests-eq stored)) ∙ h

module _ {S : Type 0} where
  -- The behaviour of the LRU library, where `view` tells what is stored under a key: a read gives
  -- what is stored, and only an addition stores something new. Entries may be evicted at any time.
  pub record DocumentedLru (lru : Lru S) (view : S → String → Option (List Manifest)) : Type 0 where
    pub get_found :
        (s : S) (key : String) (ms : List Manifest)
        → (lru.get key s).0 ≡ some ms
        → view s key ≡ some ms
    pub get_view :
        (s : S) (key j : String) (ms : List Manifest)
        → view (lru.get key s).1 j ≡ some ms
        → view s j ≡ some ms
    pub add_view :
        (s : S) (key j : String) (ms stored : List Manifest)
        → view (lru.add key ms s).1 j ≡ some stored
        → ((j ≡ key) × (stored ≡ ms)) ⊎ (view s j ≡ some stored)

module _ {S : Type 0} (c : CachingSource S) (view : S → String → Option (List Manifest))
    (Content : String → List Manifest → Type 0) where
  -- Every stored render is a content of its key.
  pub record IsSound (s : S) : Type 0 where
    pub stored : (key : String) (ms : List Manifest) → view s key ≡ some ms → Content key ms

  -- Resolving and rendering leave the cache alone, and a render of an input that was resolved is a
  -- content of its key.
  pub record IsKeyed : Type 0 where
    pub resolve_view : (mode : Mode) (s : S) → view (c.resolve mode s).1 ≡ view s
    pub render_view :
        (mode : Mode) (namespace : String) (s : S)
        → view (c.inner.render mode namespace s).1 ≡ view s
    pub content :
        (mode : Mode) (namespace : String) (s s' : S) (found : String × String) (ms : List Manifest)
        → (c.resolve mode s).0 ≡ ok found
        → (c.inner.render mode namespace s').0 ≡ ok ms
        → Content (key_of c mode namespace found) ms

  same_view-IsSound : (s s' : S) → view s' ≡ view s → IsSound s → IsSound s'
  same_view-IsSound s s' same sound = record {
    stored = λ j ms h. sound.stored j ms (ap (λ v. v j) (sym same) ∙ h);
  }

  -- The outcome of a render under `key`.
  record IsFaithful (key : String) (x : Result (List Manifest) × S) : Type 0 where
    sound : IsSound x.1
    right : (ms : List Manifest) → x.0 ≡ ok ms → Content key ms

  module _ (lru : DocumentedLru c.cache view) (keyed : IsKeyed) where
    store_render-IsFaithful :
        (key : String) (rendered : Result (List Manifest)) (s : S)
        → IsSound s
        → ((ms : List Manifest) → rendered ≡ ok ms → Content key ms)
        → IsFaithful key (store_render c key rendered s)
    unfolding store_render cache_put
    store_render-IsFaithful key (err e) s sound right = record { sound = sound; right = λ ms h. cc }
    store_render-IsFaithful key (ok ms) s sound right = record {
      sound = record {
        stored = λ j stored h. elim (lru.add_view s key j (clone_manifests ms) stored h) [
          | inl (same_key, same) ↦
              subst (λ i. Content i stored) (sym same_key)
                (subst (Content key) (sym (same ∙ clone_manifests-eq ms)) (right ms refl))
          | inr old ↦ sound.stored j stored old
        ];
      };
      right = right;
    }

    render_found-IsFaithful :
        (mode : Mode) (namespace key : String) (cached : Option (List Manifest)) (s : S)
        → IsSound s
        → ((ms : List Manifest) → cached ≡ some ms → Content key ms)
        → ((s' : S) (ms : List Manifest)
            → (c.inner.render mode namespace s').0 ≡ ok ms
            → Content key ms)
        → IsFaithful key (render_found c mode namespace key cached s)
    unfolding render_found
    render_found-IsFaithful mode namespace key (some ms) s sound hit miss = record {
      sound = sound;
      right = λ ms' h. hit ms' (ground arith);
    }
    render_found-IsFaithful mode namespace key none s sound hit miss =
        store_render-IsFaithful key (c.inner.render mode namespace s).0 _
          (record {
            stored = λ j ms h.
                sound.stored j ms (ap (λ v. v j) (sym (keyed.render_view mode namespace s)) ∙ h);
          })
          (miss s)

    render_resolved-IsFaithful :
        (mode : Mode) (namespace : String) (s s0 : S) (found : String × String)
        → IsSound s
        → (c.resolve mode s0).0 ≡ ok found
        → IsFaithful (key_of c mode namespace found) (render_resolved c mode namespace (ok found) s)
    unfolding render_resolved cache_get
    render_resolved-IsFaithful mode namespace s s0 found sound resolved =
        let key = key_of c mode namespace found in
        render_found-IsFaithful mode namespace key (cache_get c.cache key s).0 _
          (record { stored = λ j ms h. sound.stored j ms (lru.get_view s key j ms h) })
          (λ ms h. sound.stored key ms (lru.get_found s key ms (clone_found-some _ ms h)))
          (λ s' ms h. keyed.content mode namespace s0 s' found ms resolved h)

    render_after :
        (mode : Mode) (namespace : String) (s s0 : S) (resolved : Result (String × String))
        → IsSound s
        → (c.resolve mode s0).0 ≡ resolved
        → IsSound (render_resolved c mode namespace resolved s).1
          × ((found : String × String) (ms : List Manifest)
              → resolved ≡ ok found
              → (render_resolved c mode namespace resolved s).0 ≡ ok ms
              → Content (key_of c mode namespace found) ms)
    unfolding render_resolved
    render_after mode namespace s s0 (err e) sound h =
        (same_view-IsSound s _ (keyed.render_view mode namespace s) sound, λ found ms e' h'. cc)
    render_after mode namespace s s0 (ok found) sound h =
        let done = render_resolved-IsFaithful mode namespace s s0 found sound h in
        (
          done.sound,
          λ found' ms e h'.
              subst (λ f. Content (key_of c mode namespace f) ms) (ground arith) (done.right ms h'),
        )

    -- Let the LRU library behave as documented, evictions included, let resolving and rendering
    -- leave the cache alone, and let each render by the inner source of a resolved input be a
    -- content of its key. Then a render through the cache keeps the cache sound, and if the source
    -- was resolved and the render succeeds, the result is a content of the key.
    pub render_cached-IsSound :
        (mode : Mode) (namespace : String) (s : S)
        → IsSound s
        → IsSound (render_cached c mode namespace s).1
          × ((found : String × String) (ms : List Manifest)
              → (c.resolve mode s).0 ≡ ok found
              → (render_cached c mode namespace s).0 ≡ ok ms
              → Content (key_of c mode namespace found) ms)
    unfolding render_cached render_resolved
    render_cached-IsSound mode namespace s sound =
        render_after mode namespace (c.resolve mode s).1 s (c.resolve mode s).0
          (same_view-IsSound s _ (keyed.resolve_view mode s) sound) refl
