-- ===== src/Local/Source.antt =====
-- pkg/plugin/local/local.go: the local data source as a `DataSource`. The outcomes of the calls of
-- `uuid.NewUUID` are a parameter, taken one after the other.
use cofidectl.Common.{ℕ, suc, String}
use cofidectl.Common.Errors.{Result, ok}
use cofidectl.Common.Action.{Action}
use cofidectl.Config.Loader.{Loader}
use cofidectl.DataSource.{DataSource}
use cofidectl.Proto.{ProtoLib}
use cofidectl.Local.{LocalDataSource}
use cofidectl.Local.Zones
use cofidectl.Local.Clusters
use cofidectl.Local.Policies
use cofidectl.Local.Bindings
use cofidectl.Local.Federations

pub record SourceState (S : Type 0) : Type 0 where
  pub lds : LocalDataSource S
  pub uuids_used : ℕ

-- A method that makes no UUID, and one that is given the next. A call that is refused before it makes
-- one passes over it all the same.
abbrev pub plain : {S A : Type 0} → Action (LocalDataSource S) A → Action (SourceState S) A
plain m d = let (r, lds) = m d.lds in (r, record d { lds = lds })

abbrev pub with_uuid :
    {S A : Type 0}
    → (ℕ → Result String)
    → (Result String → Action (LocalDataSource S) A)
    → Action (SourceState S) A
with_uuid uuids m d =
    let (r, lds) = m (uuids d.uuids_used) d.lds in
    (r, record { lds = lds; uuids_used = suc d.uuids_used })

unfoldable pub local_source :
    {S : Type 0} → ProtoLib → Loader S → (ℕ → Result String) → DataSource (SourceState S)
local_source lib loader uuids = record {
  validate = λ d. (ok tt, d);
  add_trust_zone = λ tz. with_uuid uuids (λ uid. Zones.add_trust_zone lib loader uid tz);
  destroy_trust_zone = λ id. plain (Zones.destroy_trust_zone lib loader id);
  get_trust_zone = λ id. plain (Zones.get_trust_zone lib loader id);
  get_trust_zone_named = λ name. plain (Zones.get_trust_zone_named lib loader name);
  list_trust_zones = plain (Zones.list_trust_zones lib loader);
  update_trust_zone = λ tz. plain (Zones.update_trust_zone lib loader tz);
  add_cluster = λ x. with_uuid uuids (λ uid. Clusters.add_cluster lib loader uid x);
  destroy_cluster = λ id. plain (Clusters.destroy_cluster lib loader id);
  get_cluster = λ id. plain (Clusters.get_cluster lib loader id);
  get_cluster_named = λ name zone. plain (Clusters.get_cluster_named lib loader name zone);
  list_clusters = λ f. plain (Clusters.list_clusters lib loader f);
  update_cluster = λ x. plain (Clusters.update_cluster lib loader x);
  add_attestation_policy =
      λ x. with_uuid uuids (λ uid. Policies.add_attestation_policy lib loader uid x);
  destroy_attestation_policy = λ id. plain (Policies.destroy_attestation_policy lib loader id);
  get_attestation_policy = λ id. plain (Policies.get_attestation_policy lib loader id);
  get_attestation_policy_named =
      λ name. plain (Policies.get_attestation_policy_named lib loader name);
  list_attestation_policies = plain (Policies.list_attestation_policies lib loader);
  add_ap_binding = λ x. with_uuid uuids (λ uid. Bindings.add_ap_binding lib loader uid x);
  destroy_ap_binding = λ id. plain (Bindings.destroy_ap_binding lib loader id);
  list_ap_bindings = λ f. plain (Bindings.list_ap_bindings lib loader f);
  update_ap_binding = λ x. plain (Bindings.update_ap_binding lib loader x);
  add_federation = λ x. with_uuid uuids (λ uid. Federations.add_federation lib loader uid x);
  destroy_federation = λ id. plain (Federations.destroy_federation lib loader id);
  list_federations = λ f. plain (Federations.list_federations lib loader f);
}
