-- ===== src/Heat.antt =====
-- The packages internal/heat, internal/heatapi, internal/heatcfnapi and internal/heatengine: the
-- names, volumes, jobs and deployments that the reconcilers create.
pub mod Names
pub mod Volumes
pub mod Jobs
pub mod ChildSpec
pub mod Deployments
