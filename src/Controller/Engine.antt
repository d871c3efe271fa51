-- ===== src/Controller/Engine.antt =====
-- internal/controller/heatengine_controller.go: the reconciler of the HeatEngine resource.
pub mod Config
pub mod Reconcile
