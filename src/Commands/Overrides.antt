-- ===== src/Commands/Overrides.antt =====
-- cmd/cofidectl/cmd/trustzone/helm/helm.go: the commands that override and show the Helm values of a cluster, given
-- the data source and the provision plugin. `structpb.NewStruct` is a parameter; the copy of the
-- cluster for the rollback is the cluster.
use cofidectl.Common.{String, some, get_text}
use cofidectl.Common.Errors.{Result, ok, err, panic, rollback_failed}
use cofidectl.Common.Action.{Action, pure, raise, lift, in_context, ◌>>=◌, ◌>>◌}
use cofidectl.Values.{Fields}
use cofidectl.Config.Messages.{Cluster}
use cofidectl.DataSource.{DataSource}
use cofidectl.TrustZone.{resolve_cluster}
use cofidectl.Provision.Interface.{Provision}

module _ {W : Type 0} (ds : DataSource W) (provision : Provision W) where
  -- The outcome of the check of the values: its error puts the old cluster back.
  abbrev pub checked : Cluster → Result Fields → Action W (Unit {0})
  checked old (ok values) = pure tt
  checked old (err e) = in_context rollback_failed (ds.update_cluster old) >> raise e
  checked old panic = lift panic

  -- `overrideValues`
  unfoldable pub override_values :
      (Fields → Result Fields) → String → String → Fields → Action W (Unit {0})
  unfolding resolve_cluster
  override_values new_struct tz_name cluster_name values = do
    tz ← ds.get_trust_zone_named tz_name
    cluster ← resolve_cluster ds tz cluster_name
    extra ← lift (new_struct values)
    ds.update_cluster (record cluster { extra_helm_values = some extra })
    λ w. let (r, w') = provision.get_helm_values ds (get_text cluster.id) w in checked cluster r w'

  -- `getValues`
  unfoldable pub get_values : String → String → Action W Fields
  unfolding resolve_cluster
  get_values tz_name cluster_name = do
    tz ← ds.get_trust_zone_named tz_name
    cluster ← resolve_cluster ds tz cluster_name
    provision.get_helm_values ds (get_text cluster.id)
