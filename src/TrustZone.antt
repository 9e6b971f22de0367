-- ===== src/TrustZone.antt =====
-- internal/pkg/trustzone/trustzone.go and cmd/cofidectl/cmd/trustzone/trustzone.go: the clusters of a
-- trust zone, and the commands that add and delete one, over any data source.
pub mod Laws
use cofidectl.Common.{
  String, ◌==◌, Bool, true, false, not, Option, none, some, List, [], ◌∷◌, ◌++◌, if◌then◌else◌,
  get_text, is_empty,
}
use cofidectl.Common.Errors.{
  Error, Result, ok, err, panic, wrap, no_clusters, multiple_clusters, cluster_up, get_failed,
  add_failed, remove_failed, cluster_kind, zone_kind,
}
use cofidectl.Common.Errors
use cofidectl.Common.Action.{Action, in_context, pure, raise, lift, ◌>>=◌, ◌>>◌}
use cofidectl.Config.Messages.{TrustZone, Cluster, ClusterFilter, profile_https_spiffe}
use cofidectl.DataSource.{DataSource}

-- The case analysis on a list of clusters that must hold exactly one.
abbrev the_only : {D : Type 0} → List Cluster → Action D Cluster
the_only [] = raise no_clusters
the_only (x ∷ []) = pure x
the_only (x ∷ y ∷ xs) = raise multiple_clusters

abbrev or_no_clusters : {D : Type 0} → List Cluster → Action D (List Cluster)
or_no_clusters [] = raise no_clusters
or_no_clusters (x ∷ xs) = pure (x ∷ xs)

-- The loop that refuses to go on once a cluster is deployed, given the outcome of
-- `IsClusterDeployed` for each cluster.
unfoldable pub check_deployed : (Cluster → Result Bool) → List Cluster → Result (Unit {0})
check_deployed deployed [] = ok tt
check_deployed deployed (x ∷ xs) =
    let rest = check_deployed deployed xs in
    Errors.◌>>=◌ (deployed x) λ up. if up then err (cluster_up (get_text x.name)) else rest

-- The options of `trust-zone add`.
pub record AddOpts : Type 0 where
  pub name : String
  pub trust_domain : String
  pub jwt_issuer : String

module _ {D : Type 0} (ds : DataSource D) where
  unfoldable pub get_clusters_by_trust_zone : TrustZone → Action D (List Cluster)
  get_clusters_by_trust_zone tz = do
    clusters ← ds.list_clusters (some (record { trust_zone_id = tz.id }))
    or_no_clusters clusters

  unfoldable pub get_cluster_from_trust_zone_by_name : TrustZone → String → Action D Cluster
  get_cluster_from_trust_zone_by_name tz name =
      in_context (get_failed cluster_kind) (ds.get_cluster_named name (get_text tz.id))

  unfoldable pub resolve_cluster : TrustZone → String → Action D Cluster
  unfolding get_clusters_by_trust_zone get_cluster_from_trust_zone_by_name
  resolve_cluster tz name =
      if not (name == "")
      then get_cluster_from_trust_zone_by_name tz name
      else do clusters ← get_clusters_by_trust_zone tz; the_only clusters

  -- `addTrustZone`
  unfoldable pub add_trust_zone : AddOpts → Action D (Unit {0})
  add_trust_zone opts = do
    in_context (add_failed zone_kind) (
        ds.add_trust_zone (record {
          id = none;
          name = opts.name;
          trust_domain = opts.trust_domain;
          bundle_endpoint_url = none;
          bundle = none;
          jwt_issuer = some opts.jwt_issuer;
          bundle_endpoint_profile = some profile_https_spiffe;
        }))
    pure tt

  -- The rollback of `deleteTrustZone` adds each cluster again, and only logs an error.
  unfoldable pub rollback : List Cluster → D → D
  rollback [] d = d
  rollback (x ∷ xs) d = rollback xs (ds.add_cluster x d).1

  -- The loop that destroys the clusters; the first argument is `clusters[:i]`.
  unfoldable pub destroy_clusters : List Cluster → List Cluster → Action D (Unit {0})
  unfolding rollback
  destroy_clusters done [] d = (ok tt, d)
  destroy_clusters done (x ∷ xs) d =
      let (r, d') = ds.destroy_cluster (get_text x.id) d in
      elim r [
        | ok u ↦ destroy_clusters (done ++ x ∷ []) xs d'
        | err e ↦ (err (remove_failed cluster_kind e), rollback done d')
        | panic ↦ (panic, d')
      ]

  -- `deleteTrustZone`
  unfoldable pub delete_trust_zone : (Cluster → Result Bool) → Bool → String → Action D (Unit {0})
  delete_trust_zone deployed force name = do
    tz ← ds.get_trust_zone_named name
    let id = get_text tz.id
    clusters ← ds.list_clusters (some (record { trust_zone_id = some id }))
    lift (if force then ok tt else check_deployed deployed clusters)
    destroy_clusters [] clusters
    in_context (remove_failed zone_kind) (ds.destroy_trust_zone id)
