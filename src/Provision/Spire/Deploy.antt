-- ===== src/Provision/Spire/Deploy.antt =====
-- pkg/plugin/provision/spirehelm/spirehelm.go: `deploy`, from the list of the clusters to the second wait.
use Prim.Native.String.{◌++◌}
use cofidectl.Common.{
  List, [], String, ◌==◌, Bool, not, ◌&&◌, Option, none, some, if◌then◌else◌, is_empty,
}
use cofidectl.Common.Errors.{Error, skip_wait_with_federations}
use cofidectl.Common.Action.{Action, pure, fail_if, ◌>>=◌, ◌>>◌}
use cofidectl.DataSource.{DataSource}
use cofidectl.Provision.Messages.{status_ok, status_error}
use cofidectl.Provision.{Sending, send, silent, or_report}
use cofidectl.Provision.Interface.{DeployOpts}
use cofidectl.Provision.Spire.Api.{ProviderFactory, SpireApiFactory}
use cofidectl.Provision.Spire.{
  TrustZoneCluster, list_trust_zone_clusters, add_spire_repository, install_spire_stack,
  apply_post_install_helm_config, watch_and_configure,
}

module _ {W : Type 0} (error_text : Error → String) (repo_path : Option String)
    (providers : ProviderFactory W) (apis : SpireApiFactory W) (ds : DataSource W) where
  -- The charts of `HELM_REPO_PATH`, or those of the repository.
  unfoldable pub prepare : String → Action (Sending W) (Unit {0})
  prepare kube_config = elim repo_path [
    | none ↦ add_spire_repository error_text providers kube_config
    | some repo ↦
        if not (repo == "")
        then send
            (status_ok "Preparing" ("Found HELM_REPO_PATH value, using local chart: " ++ repo))
        else add_spire_repository error_text providers kube_config
  ]

  -- What is skipped with `SkipWait`.
  unfoldable pub configure : String → List TrustZoneCluster → Action (Sending W) (Unit {0})
  configure kube_config tzcs = do
    written ← watch_and_configure error_text apis ds kube_config [] tzcs
    apply_post_install_helm_config error_text providers ds kube_config written tzcs
    watch_and_configure error_text apis ds kube_config written tzcs
    pure tt

  -- What follows the list of the federations.
  unfoldable pub roll_out :
      DeployOpts → List TrustZoneCluster → Bool → Action (Sending W) (Unit {0})
  roll_out opts tzcs federated = do
    or_report
        (λ e.
          status_error "Deploying" "Cannot use --skip-wait with federations defined" (error_text e))
        (fail_if (federated && opts.skip_wait) skip_wait_with_federations)
    prepare opts.kube_cfg_file
    install_spire_stack error_text providers ds opts.kube_cfg_file tzcs
    if opts.skip_wait then pure tt else configure opts.kube_cfg_file tzcs

  -- `deploy`
  unfoldable pub deploy : DeployOpts → Action (Sending W) (Unit {0})
  deploy opts = do
    tzcs ←
        or_report (λ e. status_error "Deploying" "Failed listing trust zones" (error_text e))
          (list_trust_zone_clusters ds opts.trust_zone_ids)
    feds ← silent (ds.list_federations (some (record { trust_zone_id = none })))
    roll_out opts tzcs (not (is_empty feds))
