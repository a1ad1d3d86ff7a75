-- ===== src/Deliver.antt =====
-- internal/deliver: the order of delivery (Order), the caBundle that is never applied (CaBundle),
-- the health of a delivered object (Health), and server-side apply, guarded deletion and the
-- read-back (Applier).
pub mod Order
pub mod CaBundle
pub mod Health
pub mod Applier
pub mod Identity
