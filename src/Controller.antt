-- ===== src/Controller.antt =====
-- The package internal/controller: the reconcilers of Heat, HeatAPI, HeatCfnAPI and HeatEngine.
pub mod Conditions
pub mod Exec
pub mod Heat
pub mod Engine
pub mod Service
pub mod HeatApi
pub mod CfnApi
pub mod Instances
pub mod Handshake
pub mod Watches
pub mod Setup
pub mod Children
