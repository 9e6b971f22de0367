-- ===== src/DataSource.antt =====
-- pkg/plugin/datasource/interface.go: the `DataSource` interface that the commands and the
-- provisioning use, over a state `D` of the source.
pub mod Grpc
use cofidectl.Common.{String, Option, List}
use cofidectl.Common.Action.{Action}
use cofidectl.Config.Messages.{
  TrustZone, Cluster, AttestationPolicy, ApBinding, Federation, ClusterFilter, BindingFilter,
  FederationFilter,
}

pub record DataSource (D : Type 0) : Type 0 where
  pub validate : Action D (Unit {0})
  pub add_trust_zone : TrustZone → Action D TrustZone
  pub destroy_trust_zone : String → Action D (Unit {0})
  pub get_trust_zone : String → Action D TrustZone
  pub get_trust_zone_named : String → Action D TrustZone
  pub list_trust_zones : Action D (List TrustZone)
  pub update_trust_zone : TrustZone → Action D TrustZone
  pub add_cluster : Cluster → Action D Cluster
  pub destroy_cluster : String → Action D (Unit {0})
  pub get_cluster : String → Action D Cluster
  pub get_cluster_named : String → String → Action D Cluster
  pub list_clusters : Option ClusterFilter → Action D (List Cluster)
  pub update_cluster : Cluster → Action D Cluster
  pub add_attestation_policy : AttestationPolicy → Action D AttestationPolicy
  pub destroy_attestation_policy : String → Action D (Unit {0})
  pub get_attestation_policy : String → Action D AttestationPolicy
  pub get_attestation_policy_named : String → Action D AttestationPolicy
  pub list_attestation_policies : Action D (List AttestationPolicy)
  pub add_ap_binding : ApBinding → Action D ApBinding
  pub destroy_ap_binding : String → Action D (Unit {0})
  pub list_ap_bindings : Option BindingFilter → Action D (List ApBinding)
  pub update_ap_binding : ApBinding → Action D ApBinding
  pub add_federation : Federation → Action D Federation
  pub destroy_federation : String → Action D (Unit {0})
  pub list_federations : Option FederationFilter → Action D (List Federation)
