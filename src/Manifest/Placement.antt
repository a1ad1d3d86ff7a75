-- ===== src/Manifest/Placement.antt =====
-- Where `ApplyNamespace` puts the objects of a render.
use dual_deployment_operator.Base.{
  ◌≡◌, refl, String, List, [], ◌∷◌, ◌==◌, arith, if◌then◌else◌, eq_iff, map,
}
use dual_deployment_operator.Library.{Library, Documented}
use dual_deployment_operator.Manifest.{Manifest, is_cluster_scoped, place, apply_namespace}

module _ ⦃k : Library⦄ where
  -- The namespace that an object ends up with.
  abbrev pub namespace_for : String → Manifest → String
  namespace_for ns m =
      let u = m.unstructured in
      if is_cluster_scoped (k.get_kind u)
      then ""
      else if k.get_namespace u == ""
      then ns
      else k.get_namespace u

module _ ⦃k : Library⦄ (doc : Documented) where
  place-namespace :
      (ns : String) (m : Manifest) → k.get_namespace (place ns m).unstructured ≡ namespace_for ns m
  unfolding place
  place-namespace ns m =
      let u = m.unstructured in
      ground (
        arith,
        eq_iff (k.get_namespace u) "",
        eq_iff ns "",
        doc.namespace_set "" u,
        doc.namespace_set ns u,
      )

  place-kind :
      (ns : String) (m : Manifest)
      → k.get_kind (place ns m).unstructured ≡ k.get_kind m.unstructured
  unfolding place
  place-kind ns m =
      let u = m.unstructured in ground (arith, doc.kind_of_placed "" u, doc.kind_of_placed ns u)

  place_settled :
      (ns : String) (m : Manifest)
      → k.get_namespace m.unstructured ≡ namespace_for ns m
      → place ns m ≡ m
  unfolding place
  place_settled ns m h = ground (arith, eq_iff (k.get_namespace m.unstructured) "", eq_iff ns "")

  place_idem : (ns : String) (m : Manifest) → place ns (place ns m) ≡ place ns m
  place_idem ns m = place_settled ns (place ns m) (
      ground (
        arith,
        place-namespace ns m,
        place-kind ns m,
        eq_iff ns "",
        eq_iff (k.get_namespace m.unstructured) "",
        eq_iff (k.get_namespace (place ns m).unstructured) "",
      ))

  -- If the library behaves as documented, a cluster-scoped object ends up with no namespace, any
  -- other object that has a namespace keeps it, and one that has none gets the render's.
  pub apply_namespace-namespaces :
      (ms : List Manifest) (ns : String)
      → map (λ m. k.get_namespace m.unstructured) (apply_namespace ms ns)
        ≡ map (namespace_for ns) ms
  unfolding apply_namespace
  apply_namespace-namespaces [] ns = refl
  apply_namespace-namespaces (m ∷ ms) ns =
      rw (place-namespace ns m, apply_namespace-namespaces ms ns)

  -- If the library behaves as documented, placing a render in the same namespace again changes
  -- nothing.
  pub apply_namespace_idem :
      (ms : List Manifest) (ns : String)
      → apply_namespace (apply_namespace ms ns) ns ≡ apply_namespace ms ns
  unfolding apply_namespace
  apply_namespace_idem [] ns = refl
  apply_namespace_idem (m ∷ ms) ns = rw (place_idem ns m, apply_namespace_idem ms ns)
