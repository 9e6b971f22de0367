-- ===== src/Examples/Grpc.antt =====
-- The local data source behind a gRPC that carries each call.
use cofidectl.Common.{refl, Option}
use cofidectl.Common.Errors.{Error, library}
use cofidectl.Config.{Config}
use cofidectl.DataSource.{DataSource}
use cofidectl.DataSource.Grpc.{Service, grpc_client, grpc_server}
use cofidectl.DataSource.Grpc.Laws.{Delivers, Implements, converted, grpc_client-Implements}
use cofidectl.Local.Source.{SourceState, local_source}
use cofidectl.Examples.Data.{copying, keeping, uuids}

-- A status holds the text of an error only.
abbrev status_of : Error → Error
status_of e = library "status"

abbrev carried : {D : Type 0} → Service D → Service D
carried server = record {
  validate = λ req d. converted status_of (server.validate req d);
  add_trust_zone = λ req d. converted status_of (server.add_trust_zone req d);
  destroy_trust_zone = λ req d. converted status_of (server.destroy_trust_zone req d);
  get_trust_zone = λ req d. converted status_of (server.get_trust_zone req d);
  get_trust_zone_named = λ req d. converted status_of (server.get_trust_zone_named req d);
  list_trust_zones = λ req d. converted status_of (server.list_trust_zones req d);
  update_trust_zone = λ req d. converted status_of (server.update_trust_zone req d);
  add_cluster = λ req d. converted status_of (server.add_cluster req d);
  destroy_cluster = λ req d. converted status_of (server.destroy_cluster req d);
  get_cluster = λ req d. converted status_of (server.get_cluster req d);
  get_cluster_named = λ req d. converted status_of (server.get_cluster_named req d);
  list_clusters = λ req d. converted status_of (server.list_clusters req d);
  update_cluster = λ req d. converted status_of (server.update_cluster req d);
  add_attestation_policy = λ req d. converted status_of (server.add_attestation_policy req d);
  destroy_attestation_policy =
      λ req d. converted status_of (server.destroy_attestation_policy req d);
  get_attestation_policy = λ req d. converted status_of (server.get_attestation_policy req d);
  get_attestation_policy_named =
      λ req d. converted status_of (server.get_attestation_policy_named req d);
  list_attestation_policies = λ req d. converted status_of (server.list_attestation_policies req d);
  add_ap_binding = λ req d. converted status_of (server.add_ap_binding req d);
  destroy_ap_binding = λ req d. converted status_of (server.destroy_ap_binding req d);
  list_ap_bindings = λ req d. converted status_of (server.list_ap_bindings req d);
  update_ap_binding = λ req d. converted status_of (server.update_ap_binding req d);
  add_federation = λ req d. converted status_of (server.add_federation req d);
  destroy_federation = λ req d. converted status_of (server.destroy_federation req d);
  list_federations = λ req d. converted status_of (server.list_federations req d);
}

carried-Delivers : {D : Type 0} (server : Service D) → Delivers status_of server (carried server)
carried-Delivers server = record {
  validate = λ req d. refl;
  add_trust_zone = λ req d. refl;
  destroy_trust_zone = λ req d. refl;
  get_trust_zone = λ req d. refl;
  get_trust_zone_named = λ req d. refl;
  list_trust_zones = λ req d. refl;
  update_trust_zone = λ req d. refl;
  add_cluster = λ req d. refl;
  destroy_cluster = λ req d. refl;
  get_cluster = λ req d. refl;
  get_cluster_named = λ req d. refl;
  list_clusters = λ req d. refl;
  update_cluster = λ req d. refl;
  add_attestation_policy = λ req d. refl;
  destroy_attestation_policy = λ req d. refl;
  get_attestation_policy = λ req d. refl;
  get_attestation_policy_named = λ req d. refl;
  list_attestation_policies = λ req d. refl;
  add_ap_binding = λ req d. refl;
  destroy_ap_binding = λ req d. refl;
  list_ap_bindings = λ req d. refl;
  update_ap_binding = λ req d. refl;
  add_federation = λ req d. refl;
  destroy_federation = λ req d. refl;
  list_federations = λ req d. refl;
}

abbrev local : DataSource (SourceState (Option Config))
local = local_source copying keeping uuids

grpc_client-Implements_example :
    Implements status_of local (grpc_client (carried (grpc_server local)))
grpc_client-Implements_example =
    grpc_client-Implements status_of local (carried (grpc_server local))
      (carried-Delivers (grpc_server local))
