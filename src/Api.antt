-- ===== src/Api.antt =====
-- The package api/v1beta1: the custom resources, and what the admission webhook does with them.
pub mod Types
pub mod Children
pub mod Defaults
pub mod Validation
pub mod Route
pub mod Admission
