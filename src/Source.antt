-- ===== src/Source.antt =====
-- internal/source: credentials from a Secret, the cache of renders, and the two kinds of source.
pub mod Credentials
pub mod Cache
pub mod Url
pub mod Git
pub mod Plan
pub mod Loader
pub mod Helm
pub mod Kustomize
pub mod Select
