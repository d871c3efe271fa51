-- ===== src/Controller/Heat.antt =====
-- internal/controller/heat_controller.go: the reconciler of the Heat resource. Each child module
-- is a stretch of the code; `Normal` composes them.
pub mod Env
pub mod Inputs
pub mod Transport
pub mod Text
pub mod Database
pub mod Init
pub mod Config
pub mod Secrets
pub mod Children
pub mod Rotation
pub mod Normal
pub mod Safety
pub mod Delete
pub mod Reconcile
pub mod Progress
