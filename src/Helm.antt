-- ===== src/Helm.antt =====
-- pkg/provider/helm: the Helm values of a SPIRE installation.
pub mod Maps
pub mod Entries
pub mod Providers
pub mod Sections
pub mod Generator
