-- ===== src/Manager.antt =====
-- cmd/main.go: the start of the operator.
pub mod Slices
pub mod Env
pub mod Main
pub mod Tls
pub mod Ready
pub mod Progress
pub mod Watching
pub mod Admitting
