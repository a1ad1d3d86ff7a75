-- ===== src/Transform.antt =====
-- internal/transform: which manifests a selector names (selector.go), and the ordered list of
-- transformations that a spec asks for (transform.go). One module for each kind of transformation.
pub mod Selection
pub mod FilterKinds
pub mod RewriteWebhookUrl
pub mod Patching
pub mod Build
