-- ===== src/Commands/Federations/Health.antt =====
-- cmd/cofidectl/cmd/federation/federation.go: the health of a federation that `list` shows. What
-- Helm says of a cluster, the Kubernetes clients and the output of the SPIRE server's command are
-- parameters.
pub mod Laws
use cofidectl.Common.{
  String, ◌==◌, Bool, true, false, Option, none, some, List, [], ◌∷◌, if◌then◌else◌, get_text,
}
use cofidectl.Common.Maps.{lookup}
use cofidectl.Common.Errors.{Error, Result, ok, err, panic, no_clusters, no_reachable_cluster}
use cofidectl.Common.Action.{Action, pure, raise, lift, ◌>>=◌}
use cofidectl.Config.Messages.{TrustZone, Cluster, Federation}
use cofidectl.DataSource.{DataSource}
use cofidectl.TrustZone.{get_clusters_by_trust_zone}

-- `bundles`
pub record Bundles : Type 0 where
  pub server_ca_bundle : String
  pub federated_bundles : List (String × String)

-- Why the bundles of a trust zone were not read: each is a status and the reason that goes with it.
pub data Obstacle : Type 0 where
  inactive no_cluster : Obstacle
  unknown : Error → Obstacle
  unknown_context : String → String → Obstacle

pub data Health : Type 0 where
  healthy no_bundle_found bundles_do_not_match : Health
  stopped : Obstacle → Health

-- What the loop does for one trust zone: it ends the function or records the bundles.
pub data Probe : Type 0 where
  stop : Obstacle → Probe
  found : Bundles → Probe

-- The comparison after the loop, and what it does with the entry that it looks up.
abbrev compare_entry : Option String → String → Health
compare_entry none server_ca_bundle = no_bundle_found
compare_entry (some bundle) server_ca_bundle =
    if bundle == server_ca_bundle then healthy else bundles_do_not_match

unfoldable pub compare_bundles : TrustZone → Bundles → Bundles → Health
compare_bundles remote a b =
    compare_entry (lookup remote.trust_domain a.federated_bundles) b.server_ca_bundle

-- `errors.Is(err, trustzone.ErrNoClustersInTrustZone)`, of the errors that `selectUsableCluster` has
abbrev is_no_clusters : Error → Bool
is_no_clusters no_clusters = true
is_no_clusters e = false

-- The error of `selectUsableCluster` as a status
abbrev unusable : Error → Obstacle
unusable e = if is_no_clusters e then no_cluster else unknown e

abbrev or_unusable : {W : Type 0} → (Cluster → Action W Probe) → Result Cluster → Action W Probe
or_unusable k (ok c) = k c
or_unusable k (err e) = pure (stop (unusable e))
or_unusable k panic = lift panic

abbrev if_reached :
    {W : Type 0} → Action W Cluster → Action W Cluster → Result (Unit {0}) → Action W Cluster
if_reached this later (ok u) = this
if_reached this later (err e) = later
if_reached this later panic = lift panic

abbrev then_compared : TrustZone → Bundles → Probe → Health
then_compared remote a (stop o) = stopped o
then_compared remote a (found b) = compare_bundles remote a b

-- What is asked of a cluster; `C` is a Kubernetes client.
pub record ClusterAccess (W C : Type 0) : Type 0 where
  pub is_cluster_reachable : Cluster → Action W (Unit {0})
  pub is_cluster_deployed : Cluster → Action W Bool
  pub new_kube_client : String → Action W C
  pub get_server_ca_bundle : C → Action W String
  pub get_federated_bundles : C → Action W (List (String × String))

module _ {W C : Type 0} (ds : DataSource W) (access : ClusterAccess W C) where
  -- The loop of `selectUsableCluster`
  unfoldable pub first_reachable : String → List Cluster → Action W Cluster
  first_reachable name [] = raise (no_reachable_cluster name)
  first_reachable name (c ∷ cs) = λ w.
      let (r, w') = access.is_cluster_reachable c w in
      let rest = first_reachable name cs in if_reached (pure c) rest r w'

  unfoldable pub select_usable_cluster : TrustZone → Action W Cluster
  unfolding first_reachable
  select_usable_cluster tz = do
    clusters ← get_clusters_by_trust_zone ds tz
    first_reachable tz.name clusters

  -- `GetServerCABundleAndFederatedBundles`
  unfoldable pub get_bundles : C → Action W Bundles
  get_bundles client = do
    server_ca_bundle ← access.get_server_ca_bundle client
    federated_bundles ← access.get_federated_bundles client
    pure (record { server_ca_bundle = server_ca_bundle; federated_bundles = federated_bundles })

  -- The bundles of a cluster that is deployed
  unfoldable pub read_cluster : String → Action W Probe
  unfolding get_bundles
  read_cluster kube_context = do
    client ← access.new_kube_client kube_context
    bundles ← get_bundles client
    pure (found bundles)

  abbrev if_deployed : String → Bool → Action W Probe
  if_deployed kube_context true = read_cluster kube_context
  if_deployed kube_context false = pure (stop inactive)

  -- The body of the loop, once it has the cluster
  unfoldable pub probe_cluster : TrustZone → Cluster → Action W Probe
  probe_cluster tz c =
      if get_text c.kubernetes_context == ""
      then pure (stop (unknown_context (get_text c.name) tz.name))
      else do
        deployed ← access.is_cluster_deployed c
        if_deployed (get_text c.kubernetes_context) deployed

  unfoldable pub probe : TrustZone → Action W Probe
  unfolding select_usable_cluster probe_cluster
  probe tz = λ w. let (r, w') = select_usable_cluster tz w in or_unusable (probe_cluster tz) r w'

  abbrev after_first : TrustZone → Probe → Action W Health
  after_first remote (stop o) = pure (stopped o)
  after_first remote (found a) = do p ← probe remote; pure (then_compared remote a p)

  unfoldable pub check_federation_status : TrustZone → TrustZone → Action W Health
  unfolding probe
  check_federation_status local remote = do p ← probe local; after_first remote p

  -- The `RunE` of `list`: a row for each federation.
  unfoldable pub list_rows : List Federation → Action W (List (TrustZone × (TrustZone × Health)))
  unfolding check_federation_status
  list_rows [] = pure []
  list_rows (f ∷ fs) = do
    tz ← ds.get_trust_zone (get_text f.trust_zone_id)
    remote ← ds.get_trust_zone (get_text f.remote_trust_zone_id)
    health ← check_federation_status tz remote
    rows ← list_rows fs
    pure ((tz, (remote, health)) ∷ rows)
