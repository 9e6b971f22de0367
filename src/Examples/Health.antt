-- ===== src/Examples/Health.antt =====
-- A federation of two deployed clusters, the second of whose servers does not have the bundle of the first.
use cofidectl.Common.{◌≡◌, refl, String, true, Option, none, some, [], ◌∷◌, filter}
use cofidectl.Common.Maps.{lookup}
use cofidectl.Common.Errors.{ok}
use cofidectl.Config.{Config}
use cofidectl.DataSource.{DataSource}
use cofidectl.TrustZone.{get_clusters_by_trust_zone}
use cofidectl.Local.Source.{SourceState, local_source}
use cofidectl.Commands.Federations.Health.{
  Bundles, ClusterAccess, check_federation_status, compare_bundles, probe, probe_cluster,
  select_usable_cluster, first_reachable, read_cluster, get_bundles,
}
use cofidectl.Commands.Federations.Health.Laws.{Observed, check_federation_status_healthy}
use cofidectl.Examples.Data.{alpha, beta, copying, keeping, small, cluster_one, uuids}

abbrev World : Type 0
World = SourceState (Option Config)

abbrev local : DataSource World
local = local_source copying keeping uuids

abbrev clusters : Config
clusters = record small {
  clusters =
      record cluster_one {
        id = some "d";
        trust_zone_id = some "a";
        kubernetes_context = some "kind-a";
      }
      ∷ record cluster_one { kubernetes_context = some "kind-b" }
      ∷ [];
}

abbrev deployed : World
deployed = record { lds = record { config = clusters; store = none }; uuids_used = 0 }

-- A client is a context, and the bundle of a server is the context of its cluster.
abbrev access : ClusterAccess World String
access = record {
  is_cluster_reachable = λ c w. (ok tt, w);
  is_cluster_deployed = λ c w. (ok true, w);
  new_kube_client = λ context w. (ok context, w);
  get_server_ca_bundle = λ client w. (ok client, w);
  get_federated_bundles = λ client w. (ok (("beta.test", "kind-b") ∷ []), w);
}

check_federation_status_healthy_example :
    (a : Bundles) × (b : Bundles) × (w : World) × Observed local access alpha a deployed w
    × Observed local access beta b w deployed
    × (lookup "beta.test" a.federated_bundles ≡ some b.server_ca_bundle)
unfolding check_federation_status compare_bundles probe probe_cluster select_usable_cluster
    first_reachable read_cluster get_bundles get_clusters_by_trust_zone local_source lookup filter
    cofidectl.Local.Clusters.list_clusters cofidectl.Config.get_clusters_by_trust_zone
    cofidectl.Local.clone_all cofidectl.Proto.clone_cluster
check_federation_status_healthy_example =
    check_federation_status_healthy local access alpha beta deployed deployed refl
