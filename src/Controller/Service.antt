-- ===== src/Controller/Service.antt =====
-- The reconcilers of HeatEngine, HeatAPI and HeatCfnAPI (internal/controller/heatengine_controller.go,
-- heatapi_controller.go and heatcfnapi_controller.go). The three files repeat one another: what they
-- share is written once here, by the component, and Controller.Engine, Controller.HeatApi and
-- Controller.CfnApi are its three instances.
pub mod Env
pub mod Inputs
pub mod Config
pub mod Endpoints
pub mod Topology
pub mod Rollout
pub mod Normal
pub mod Delete
pub mod Reconcile
pub mod Safety
pub mod Watched
pub mod ParentMissing
pub mod Clean
