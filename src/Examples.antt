-- ===== src/Examples.antt =====
-- Concrete resources and clusters, and runs of the model on them.
mod Resource
mod Webhook
mod Cluster
mod Runs
mod Services
mod Watching
mod Rollouts
mod Builders
mod Start
mod Children
mod Started
