-- ===== src/Examples.antt =====
-- Concrete configurations, libraries and stores, and the theorems of the other files at them.
mod Data
mod Zones
mod Clusters
mod Policies
mod Bindings
mod Federations
mod Sessions
mod Deletion
mod Loaders
mod Manager
mod Helm
mod Grpc
mod Charts
mod Provision
mod Values
mod Commands
mod Waiting
mod Health
