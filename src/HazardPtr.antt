-- ===== src/HazardPtr.antt =====
-- src/hazard_ptr: the pointers that threads protect from being reclaimed.
pub mod Global
mod Tests
