-- ===== src/Provision/Spire.antt =====
-- pkg/plugin/provision/spirehelm/spirehelm.go: the plugin that deploys the trust zones with the SPIRE
-- charts. The zones of the pairs are shared objects: a pair names its zone by the number of the object.
pub mod Api
pub mod Deploy
pub mod Factory
pub mod Plugin
pub mod Report
use Prim.Native.String.{◌++◌}
use cofidectl.Common.{
  ℕ, zero, suc, String, ◌==◌, Bool, true, false, not, ◌&&◌, Option, none, some, List, [], ◌∷◌,
  if◌then◌else◌, get_text, is_empty,
}
use cofidectl.Common.Errors.{
  Error, Result, ok, err, panic, no_clusters, no_trust_zones, skip_wait_with_federations,
}
use cofidectl.Common.Action.{Action, pure, raise, lift, fail_if, ◌>>=◌, ◌>>◌}
use cofidectl.Config.Messages.{
  TrustZone, Cluster, Federation, BundleEndpointProfile, profile_unspecified, profile_https_spiffe,
  profile_https_web,
}
use cofidectl.Values.{Fields}
use cofidectl.DataSource.{DataSource}
use cofidectl.TrustZone.{get_clusters_by_trust_zone}
use cofidectl.Provision.Messages.{
  Status, StatusBuilder, status_ok, status_error, builder_ok, builder_done, builder_error,
}
use cofidectl.Provision.{Sending, send, silent, or_report}
use cofidectl.Provision.Interface.{TearDownOpts}
use cofidectl.Provision.Spire.Api.{Provider, ProviderFactory, SpireApi, SpireApiFactory}

-- `TrustZoneCluster`, with the number of the object that `TrustZone` points to.
pub record TrustZoneCluster : Type 0 where
  pub address : ℕ
  pub trust_zone : TrustZone
  pub cluster : Cluster

-- The zones that were written to since they were listed, the last one first.
abbrev pub Written : Type 0
Written = List (ℕ × TrustZone)

abbrev same : ℕ → ℕ → Bool
same zero zero = true
same zero (suc n) = false
same (suc m) zero = false
same (suc m) (suc n) = same m n

-- The zone that a pair points to now.
unfoldable pub zone_of : Written → TrustZoneCluster → TrustZone
zone_of [] tzc = tzc.trust_zone
zone_of ((a, z) ∷ written) tzc =
    let rest = zone_of written tzc in if same a tzc.address then z else rest

abbrev get_bool : Option Bool → Bool
get_bool none = false
get_bool (some b) = b

abbrev is_https_spiffe : Option BundleEndpointProfile → Bool
is_https_spiffe none = false
is_https_spiffe (some p) = elim p [
  | profile_unspecified ↦ false
  | profile_https_spiffe ↦ true
  | profile_https_web ↦ false
]

abbrev builder_of : TrustZone → Cluster → StatusBuilder
builder_of tz cluster = record { trust_zone = tz.name; cluster = get_text cluster.name }

-- No clusters in a zone is no error for the list.
abbrev or_none : Result (List Cluster) → Result (List Cluster)
or_none (ok cs) = ok cs
or_none (err no_clusters) = ok []
or_none (err e) = err e
or_none panic = panic

-- The pairs for the clusters of the zone with a number, before those of the zones after it.
abbrev pairs : ℕ → TrustZone → List Cluster → List TrustZoneCluster → List TrustZoneCluster
pairs n tz [] later = later
pairs n tz (c ∷ cs) later =
    record { address = n; trust_zone = tz; cluster = c } ∷ pairs n tz cs later

module _ {W : Type 0} (ds : DataSource W) where
  -- The loop over the ids of trust zones.
  unfoldable pub get_trust_zones : List String → Action W (List TrustZone)
  get_trust_zones [] w = (ok [], w)
  get_trust_zones (id ∷ ids) w =
      (ds.get_trust_zone id >>= λ tz. get_trust_zones ids >>= λ tzs. pure (tz ∷ tzs)) w

  -- The loop over the zones, the next one being numbered.
  unfoldable pub clusters_of : ℕ → List TrustZone → Action W (List TrustZoneCluster)
  unfolding get_clusters_by_trust_zone
  clusters_of n [] w = (ok [], w)
  clusters_of n (tz ∷ tzs) w =
      let (r, w') = get_clusters_by_trust_zone ds tz w in
      (lift (or_none r) >>= λ cs. clusters_of (suc n) tzs >>= λ rest. pure (pairs n tz cs rest)) w'

  -- `ListTrustZoneClusters`
  unfoldable pub list_trust_zone_clusters : List String → Action W (List TrustZoneCluster)
  unfolding get_trust_zones clusters_of
  list_trust_zone_clusters ids = do
    tzs ← if is_empty ids then ds.list_trust_zones else get_trust_zones ids
    fail_if (is_empty tzs) no_trust_zones
    clusters_of zero tzs

module _ {W : Type 0} (error_text : Error → String) (providers : ProviderFactory W) where
  -- `AddSPIRERepository`
  unfoldable pub add_spire_repository : String → Action (Sending W) (Unit {0})
  add_spire_repository kube_config = do
    prov ←
        or_report
          (λ e. status_error "Preparing" "Failed to create Helm SPIRE provider" (error_text e))
          (providers.build none none none false kube_config)
    prov.add_repository

  abbrev built :
      Option (DataSource W)
      → Bool
      → String
      → String
      → TrustZone
      → Cluster
      → Action (Sending W) (Provider W)
  built ds values kube_config stage tz cluster =
      or_report
        (λ e.
          builder_error (builder_of tz cluster) stage "Failed to create Helm SPIRE provider"
            (error_text e))
        (providers.build ds (some tz) (some cluster) values kube_config)

  -- `InstallSPIREStack`
  unfoldable pub install_spire_stack :
      DataSource W → String → List TrustZoneCluster → Action (Sending W) (Unit {0})
  install_spire_stack ds kube_config [] s = (ok tt, s)
  install_spire_stack ds kube_config (tzc ∷ rest) s =
      (built (some ds) true kube_config "Deploying" tzc.trust_zone tzc.cluster >>= λ prov.
      prov.execute >> install_spire_stack ds kube_config rest)
        s

  -- `ApplyPostInstallHelmConfig`, on the zones as they were written since.
  unfoldable pub apply_post_install_helm_config :
      DataSource W → String → Written → List TrustZoneCluster → Action (Sending W) (Unit {0})
  unfolding zone_of
  apply_post_install_helm_config ds kube_config written [] s = (ok tt, s)
  apply_post_install_helm_config ds kube_config written (tzc ∷ rest) s =
      (built (some ds) true kube_config "Configuring" (zone_of written tzc) tzc.cluster >>= λ prov.
      prov.execute_post_install_upgrade
      >> apply_post_install_helm_config ds kube_config written rest)
        s

  -- `UninstallSPIREStack`
  unfoldable pub uninstall_spire_stack :
      String → List TrustZoneCluster → Action (Sending W) (Unit {0})
  uninstall_spire_stack kube_config [] s = (ok tt, s)
  uninstall_spire_stack kube_config (tzc ∷ rest) s =
      (built none false kube_config "Uninstalling" tzc.trust_zone tzc.cluster >>= λ prov.
      prov.execute_uninstall >> uninstall_spire_stack kube_config rest)
        s

  -- `tearDown`
  unfoldable pub tear_down : DataSource W → TearDownOpts → Action (Sending W) (Unit {0})
  unfolding list_trust_zone_clusters uninstall_spire_stack
  tear_down ds opts = do
    tzcs ←
        or_report (λ e. status_error "Uninstalling" "Failed listing trust zones" (error_text e))
          (list_trust_zone_clusters ds opts.trust_zone_ids)
    uninstall_spire_stack opts.kube_cfg_file tzcs

  -- `GetHelmValues`
  unfoldable pub get_helm_values : DataSource W → String → Action W Fields
  get_helm_values ds cluster_id = do
    cluster ← ds.get_cluster cluster_id
    tz ← ds.get_trust_zone (get_text cluster.trust_zone_id)
    providers.get_helm_values ds tz cluster

module _ {W : Type 0} (error_text : Error → String) (apis : SpireApiFactory W) where
  abbrev waiting_failed : StatusBuilder → Error → Status
  waiting_failed sb e =
      builder_error sb "Waiting" "Failed waiting for SPIRE server pod and service" (error_text e)

  -- The part of `GetBundleAndEndpoint` for the profile https_spiffe: the zone is written to, and saved.
  abbrev refresh :
      DataSource W → StatusBuilder → SpireApi W → String → TrustZone → Action (Sending W) TrustZone
  refresh ds sb api ip tz = do
    bundle ←
        or_report (λ e. builder_error sb "Waiting" "Failed obtaining bundle" (error_text e))
          api.get_bundle
    let tz' = record tz {
      bundle_endpoint_url = some ("https://" ++ ip ++ ":8443");
      bundle = some bundle;
    }
    or_report
        (λ e. status_error "Waiting" ("Failed updating trust zone " ++ tz.name) (error_text e))
        (ds.update_trust_zone tz')
    pure tz'

  -- `GetBundleAndEndpoint`, with the zone as it leaves it.
  unfoldable pub get_bundle_and_endpoint :
      DataSource W → String → TrustZone → Cluster → Action (Sending W) TrustZone
  get_bundle_and_endpoint ds kube_config tz cluster = do
    let sb = builder_of tz cluster
    send (builder_ok sb "Waiting" "Waiting for SPIRE server pod and service")
    api ←
        or_report (waiting_failed sb) (apis.build kube_config (get_text cluster.kubernetes_context))
    ip ← or_report (waiting_failed sb) api.wait_for_server_ip
    tz' ← if is_https_spiffe tz.bundle_endpoint_profile then refresh ds sb api ip tz else pure tz
    send (builder_done sb "Ready" "All SPIRE server pods and services are ready")
    pure tz'

  -- `WatchAndConfigure`, with the zones that were written to.
  unfoldable pub watch_and_configure :
      DataSource W → String → Written → List TrustZoneCluster → Action (Sending W) Written
  unfolding zone_of get_bundle_and_endpoint
  watch_and_configure ds kube_config written [] s = (ok written, s)
  watch_and_configure ds kube_config written (tzc ∷ rest) s =
      let tz = zone_of written tzc in
      (if get_bool tzc.cluster.external_server
          then send (
              builder_done (builder_of tz tzc.cluster) "Ready"
                "Skipped waiting for external SPIRE server pod and service")
            >> watch_and_configure ds kube_config written rest
          else get_bundle_and_endpoint ds kube_config tz tzc.cluster >>= λ tz'.
              watch_and_configure ds kube_config ((tzc.address, tz') ∷ written) rest)
        s
