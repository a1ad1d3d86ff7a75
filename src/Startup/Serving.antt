-- ===== src/Startup/Serving.antt =====
-- How the servers of the process are set up.
use dual_deployment_operator.Base.{
  ◌≡◌, ◌↔◌, ◌≢◌, refl, inl, inr, ◌⊎◌, String, Bool, true, false, List, [], ◌∷◌, ◌==◌, eq_iff,
  Bool-cases, arith,
}
use dual_deployment_operator.Startup.Options.{
  Flags, TlsConfig, TlsOpts, disable_http2, tls_opts, metrics_server_options,
  webhook_server_options, cache_namespaces, manager_options,
}

-- A server applies its options to the configuration one after the other.
abbrev pub configured : TlsOpts → TlsConfig → TlsConfig
configured [] c = c
configured (f ∷ fs) c = configured fs (f c)

-- What a TLS configuration becomes on a server without HTTP/2, and on one with it.
abbrev pub served : Bool → TlsConfig → List String
served true c = c.next_protos
served false c = "http/1.1" ∷ []

configured-tls_opts :
    (flags : Flags) (c : TlsConfig)
    → (configured (tls_opts flags) c).next_protos ≡ served flags.enable_http2 c
unfolding tls_opts disable_http2
configured-tls_opts flags c = ground arith

-- Both servers offer HTTP/1.1 only unless HTTP/2 is enabled, whatever configuration they start from;
-- the metrics are served over HTTPS if and only if their requests are authenticated; and the cache
-- watches the namespace of the pod only, if that is known, and otherwise has no restriction.
pub manager_options-serving :
    (flags : Flags) (pod_namespace : String) (c : TlsConfig)
    → let o = manager_options flags pod_namespace in
      ((configured o.metrics.tls_opts c).next_protos ≡ served flags.enable_http2 c)
      × ((configured o.webhook_server.tls_opts c).next_protos ≡ served flags.enable_http2 c)
      × ((o.metrics.secure_serving ≡ true) ↔ (o.metrics.filtered ≡ true))
      × (((pod_namespace ≢ "") × (o.default_namespaces ≡ pod_namespace ∷ []))
          ⊎ ((pod_namespace ≡ "") × (o.default_namespaces ≡ [])))
unfolding manager_options metrics_server_options webhook_server_options cache_namespaces
manager_options-serving flags pod_namespace c = (
  configured-tls_opts flags c,
  configured-tls_opts flags c,
  ground arith,
  elim (Bool-cases (pod_namespace == "")) [
    | inl e ↦ inr ((eq_iff pod_namespace "").0 e, rw (e, cache_namespaces) refl)
    | inr e ↦
        inl (λ h. ground (arith, e, (eq_iff pod_namespace "").1 h), rw (e, cache_namespaces) refl)
  ],
)
