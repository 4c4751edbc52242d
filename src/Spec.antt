-- ===== src/Spec.antt =====
-- What the components promise, without tables, statements or failures.
pub mod Register
