-- ===== src/Local/Clusters.antt =====
-- pkg/plugin/local/local.go: the cluster methods of the local data source.
pub mod Invariant
pub mod Laws
use cofidectl.Common.{
  String, ◌==◌, Bool, true, false, not, ◌&&◌, ◌||◌, Option, none, some, List, [], ◌∷◌, ◌++◌,
  if◌then◌else◌, get_text, find_first, filter, any, remove_first, replace_first, is_some, is_empty,
}
use cofidectl.Common.Errors.{
  cluster_kind, Error, Result, ok, err, id_set, already_exists_in, not_found, not_found_in,
  immutable_in, no_trust_provider, trust_provider_removed, add_failed, remove_failed, update_failed,
}
use cofidectl.Common.Action.{Action, lift, gets, fail_if, ◌>>=◌, ◌>>◌}
use cofidectl.Config.{
  Config, cluster_has_id, get_cluster_by_name, get_cluster_by_id, get_clusters_by_trust_zone,
}
use cofidectl.Config.Messages.{ClusterFilter, Cluster, TrustProvider}
use cofidectl.Config.Loader.{Loader}
use cofidectl.Proto.{ProtoLib, clone_cluster}
use cofidectl.Local.{LocalDataSource, generate_id, or_fail, clone_all, change, update_data_file}

abbrev provider_kind : TrustProvider → String
provider_kind provider = get_text provider.kind

unfoldable pub validate_trust_provider_update :
    String → String → Option TrustProvider → Option TrustProvider → Result (Unit {0})
validate_trust_provider_update cluster tz none new = err (no_trust_provider cluster tz)
validate_trust_provider_update cluster tz (some current) none =
    err (trust_provider_removed cluster tz)
validate_trust_provider_update cluster tz (some current) (some new) =
    if not (provider_kind new == provider_kind current)
    then err (immutable_in cluster_kind "trust provider kind" cluster tz)
    else ok tt

unfoldable pub validate_cluster_update : Cluster → Cluster → Result (Unit {0})
unfolding validate_trust_provider_update
validate_cluster_update current new =
    let id = get_text current.id in
    let zone_id = get_text current.trust_zone_id in
    if not (get_text new.id == get_text current.id)
    then err (immutable_in cluster_kind "id" id zone_id)
    else if not (get_text new.name == get_text current.name)
    then err (immutable_in cluster_kind "name" id zone_id)
    else if not (get_text new.trust_zone_id == get_text current.trust_zone_id)
    then err (immutable_in cluster_kind "trust zone" id zone_id)
    else if not (get_text new.profile == get_text current.profile)
    then err (immutable_in cluster_kind "profile" id zone_id)
    else validate_trust_provider_update id zone_id current.trust_provider new.trust_provider

-- The clusters that `ListClusters` goes through.
abbrev pub listed_clusters : Config → Option ClusterFilter → List Cluster
listed_clusters c none = c.clusters
listed_clusters c (some f) =
    if not (get_text f.trust_zone_id == "")
    then get_clusters_by_trust_zone c (get_text f.trust_zone_id)
    else c.clusters

module _ {S : Type 0} (lib : ProtoLib) (loader : Loader S) where
  unfoldable pub add_cluster : Result String → Cluster → Action (LocalDataSource S) Cluster
  unfolding generate_id update_data_file
  add_cluster uid cluster = do
    let name = get_text cluster.name
    let zone_id = get_text cluster.trust_zone_id
    fail_if (not (get_text cluster.id == "")) (id_set cluster_kind (get_text cluster.id))
    copy ← lift (clone_cluster lib cluster)
    id ← lift (generate_id cluster_kind uid)
    let new = record copy { id = some id }
    same ← gets (λ lds. get_cluster_by_name lds.config name zone_id)
    fail_if (is_some same) (already_exists_in cluster_kind name zone_id)
    change (λ c. record c { clusters = c.clusters ++ new ∷ [] })
    update_data_file loader (add_failed cluster_kind)
    lift (clone_cluster lib new)

  unfoldable pub destroy_cluster : String → Action (LocalDataSource S) (Unit {0})
  unfolding update_data_file
  destroy_cluster id = do
    found ← gets (λ lds. find_first (cluster_has_id id) lds.config.clusters)
    or_fail (not_found cluster_kind id) found
    change (λ c. record c { clusters = remove_first (cluster_has_id id) c.clusters })
    update_data_file loader (remove_failed cluster_kind)

  unfoldable pub get_cluster : String → Action (LocalDataSource S) Cluster
  get_cluster id = do
    found ← gets (λ lds. get_cluster_by_id lds.config id)
    cluster ← or_fail (not_found cluster_kind id) found
    lift (clone_cluster lib cluster)

  unfoldable pub get_cluster_named : String → String → Action (LocalDataSource S) Cluster
  get_cluster_named name trust_zone_id = do
    found ← gets (λ lds. get_cluster_by_name lds.config name trust_zone_id)
    cluster ← or_fail (not_found_in cluster_kind name trust_zone_id) found
    lift (clone_cluster lib cluster)

  unfoldable pub list_clusters : Option ClusterFilter → Action (LocalDataSource S) (List Cluster)
  list_clusters f lds = (clone_all (clone_cluster lib) (listed_clusters lds.config f), lds)

  unfoldable pub update_cluster : Cluster → Action (LocalDataSource S) Cluster
  unfolding update_data_file
  update_cluster cluster = do
    let id = get_text cluster.id
    found ← gets (λ lds. find_first (cluster_has_id id) lds.config.clusters)
    current ← or_fail (not_found_in cluster_kind id (get_text cluster.trust_zone_id)) found
    lift (validate_cluster_update current cluster)
    copy ← lift (clone_cluster lib cluster)
    change (λ c. record c { clusters = replace_first (cluster_has_id id) copy c.clusters })
    update_data_file loader (update_failed cluster_kind)
    lift (clone_cluster lib copy)
