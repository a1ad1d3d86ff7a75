-- ===== src/Equivalence.antt =====
-- internal/equivalence: the comparison of the operator's renders with a golden render.
pub mod Objects
pub mod Allowlist
pub mod Normalize
pub mod Compare
pub mod Scope
pub mod Classify
pub mod Capture
pub mod Golden
pub mod Fixture
