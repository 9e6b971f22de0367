-- ===== src/Provision/Spire/Report.antt =====
-- pkg/plugin/provision/spirehelm/spirehelm.go: what a deployment and a removal report.
use cofidectl.Common.{
  ◌≡◌, ◌≢◌, refl, String, ◌==◌, Bool, true, not, Option, none, some, List, [], ◌∷◌, is_empty,
  test_of_ne,
}
use cofidectl.Common.Errors.{Error, ok, err, library, skip_wait_with_federations}
use cofidectl.Config.Messages.{Federation, TrustZone, Cluster, FederationFilter}
use cofidectl.DataSource.{DataSource}
use cofidectl.Provision.Messages.{StatusBuilder}
use cofidectl.Provision.{or_report, watch_provision_status}
use cofidectl.Provision.Tells.{
  Tells, Tells-pure, Tells-send, Tells-bind, Tells-then, Tells-if, Tells-report_bind, Tells-silent,
}
use cofidectl.Provision.Interface.{DeployOpts, TearDownOpts}
use cofidectl.Provision.Spire.Api.{Provider, ProviderFactory, SpireApi, SpireApiFactory}
use cofidectl.Provision.Spire.{
  TrustZoneCluster, Written, get_bool, is_https_spiffe, builder_of, zone_of,
  list_trust_zone_clusters, add_spire_repository, install_spire_stack,
  apply_post_install_helm_config, uninstall_spire_stack, tear_down, refresh,
  get_bundle_and_endpoint, watch_and_configure,
}
use cofidectl.Provision.Spire.Deploy.{prepare, configure, roll_out, deploy}

-- A provider each of whose methods that send messages reports how it ends.
pub record TellsAll (error_text : Error → String) {W : Type 0} (p : Provider W) : Type 0 where
  pub add_repository : Tells error_text p.add_repository
  pub execute : Tells error_text p.execute
  pub execute_post_install_upgrade : Tells error_text p.execute_post_install_upgrade
  pub execute_upgrade : Tells error_text p.execute_upgrade
  pub execute_uninstall : Tells error_text p.execute_uninstall

-- A factory all of whose providers report how they end.
pub record BuildsTelling (error_text : Error → String) {W : Type 0} (f : ProviderFactory W)
    : Type 0 where
  pub built :
      (ds : Option (DataSource W)) (tz : Option TrustZone) (c : Option Cluster) (values : Bool)
      (kube_config : String) (w : W) (p : Provider W)
      → (f.build ds tz c values kube_config w).0 ≡ ok p
      → TellsAll error_text p

module _ {W : Type 0} (error_text : Error → String) (named : (e : Error) → error_text e ≢ "")
    (providers : ProviderFactory W) (telling : BuildsTelling error_text providers) where
  add_spire_repository-Tells :
      (kube_config : String)
      → Tells error_text (add_spire_repository error_text providers kube_config)
  unfolding add_spire_repository
  add_spire_repository-Tells kube_config =
      Tells-report_bind error_text named _ _ _ (λ e. refl)
        λ w p q. (telling.built _ _ _ _ _ w p q).add_repository

  install_spire_stack-Tells :
      (ds : DataSource W) (kube_config : String) (tzcs : List TrustZoneCluster)
      → Tells error_text (install_spire_stack error_text providers ds kube_config tzcs)
  unfolding install_spire_stack
  install_spire_stack-Tells ds kube_config [] = Tells-pure error_text tt
  install_spire_stack-Tells ds kube_config (tzc ∷ rest) =
      Tells-report_bind error_text named _ _ _ (λ e. refl)
        λ w p q.
          Tells-then error_text _ _ (telling.built _ _ _ _ _ w p q).execute
            (install_spire_stack-Tells ds kube_config rest)

  apply_post_install_helm_config-Tells :
      (ds : DataSource W) (kube_config : String) (written : Written) (tzcs : List TrustZoneCluster)
      → Tells error_text
          (apply_post_install_helm_config error_text providers ds kube_config written tzcs)
  unfolding apply_post_install_helm_config
  apply_post_install_helm_config-Tells ds kube_config written [] = Tells-pure error_text tt
  apply_post_install_helm_config-Tells ds kube_config written (tzc ∷ rest) =
      Tells-report_bind error_text named _ _ _ (λ e. refl)
        λ w p q.
          Tells-then error_text _ _ (telling.built _ _ _ _ _ w p q).execute_post_install_upgrade
            (apply_post_install_helm_config-Tells ds kube_config written rest)

  uninstall_spire_stack-Tells :
      (kube_config : String) (tzcs : List TrustZoneCluster)
      → Tells error_text (uninstall_spire_stack error_text providers kube_config tzcs)
  unfolding uninstall_spire_stack
  uninstall_spire_stack-Tells kube_config [] = Tells-pure error_text tt
  uninstall_spire_stack-Tells kube_config (tzc ∷ rest) =
      Tells-report_bind error_text named _ _ _ (λ e. refl)
        λ w p q.
          Tells-then error_text _ _ (telling.built _ _ _ _ _ w p q).execute_uninstall
            (uninstall_spire_stack-Tells kube_config rest)

  -- A removal reports how it ends.
  pub tear_down-Tells :
      (ds : DataSource W) (opts : TearDownOpts)
      → Tells error_text (tear_down error_text providers ds opts)
  unfolding tear_down
  tear_down-Tells ds opts =
      Tells-report_bind error_text named _ _ _ (λ e. refl)
        λ w tzcs q. uninstall_spire_stack-Tells opts.kube_cfg_file tzcs

module _ {W : Type 0} (error_text : Error → String) (named : (e : Error) → error_text e ≢ "")
    (apis : SpireApiFactory W) where
  refresh-Tells :
      (ds : DataSource W) (sb : StatusBuilder) (api : SpireApi W) (ip : String) (tz : TrustZone)
      → Tells error_text (refresh error_text apis ds sb api ip tz)
  refresh-Tells ds sb api ip tz =
      Tells-report_bind error_text named _ _ _ (λ e. refl)
        λ w bundle q.
          Tells-report_bind error_text named _ _ _ (λ e. refl) λ w' saved r. Tells-pure error_text _

  get_bundle_and_endpoint-Tells :
      (ds : DataSource W) (kube_config : String) (tz : TrustZone) (cluster : Cluster)
      → Tells error_text (get_bundle_and_endpoint error_text apis ds kube_config tz cluster)
  unfolding get_bundle_and_endpoint
  get_bundle_and_endpoint-Tells ds kube_config tz cluster =
      Tells-then error_text _ _ (Tells-send error_text _ refl) (
        Tells-report_bind error_text named _ _ _ (λ e. refl)
          λ w api q.
            Tells-report_bind error_text named _ _ _ (λ e. refl)
              λ w ip r.
                Tells-bind error_text _ _
                  (Tells-if error_text (is_https_spiffe tz.bundle_endpoint_profile) _ _
                    (refresh-Tells ds (builder_of tz cluster) api ip tz) (Tells-pure error_text tz))
                  λ tz'.
                    Tells-then error_text _ _ (Tells-send error_text _ refl)
                      (Tells-pure error_text tz'))

  watch_and_configure-Tells :
      (ds : DataSource W) (kube_config : String) (written : Written) (tzcs : List TrustZoneCluster)
      → Tells error_text (watch_and_configure error_text apis ds kube_config written tzcs)
  unfolding watch_and_configure
  watch_and_configure-Tells ds kube_config written [] = Tells-pure error_text written
  watch_and_configure-Tells ds kube_config written (tzc ∷ rest) =
      Tells-if error_text (get_bool tzc.cluster.external_server) _ _
        (Tells-then error_text _ _ (Tells-send error_text _ refl)
          (watch_and_configure-Tells ds kube_config written rest))
        (Tells-bind error_text _ _
          (get_bundle_and_endpoint-Tells ds kube_config (zone_of written tzc) tzc.cluster)
          λ tz'. watch_and_configure-Tells ds kube_config ((tzc.address, tz') ∷ written) rest)

module _ {W : Type 0} (error_text : Error → String) (named : (e : Error) → error_text e ≢ "")
    (repo_path : Option String) (providers : ProviderFactory W)
    (telling : BuildsTelling error_text providers) (apis : SpireApiFactory W)
    (ds : DataSource W) where
  prepare-Tells :
      (kube_config : String)
      → Tells error_text (prepare error_text repo_path providers apis ds kube_config)
  unfolding prepare
  prepare-Tells kube_config =
      elim repo_path
        as (λ r. Tells error_text (prepare error_text r providers apis ds kube_config)) [
          | none ↦ add_spire_repository-Tells error_text named providers telling kube_config
          | some repo ↦
              Tells-if error_text (not (repo == "")) _ _ (Tells-send error_text _ refl)
                (add_spire_repository-Tells error_text named providers telling kube_config)
        ]

  configure-Tells :
      (kube_config : String) (tzcs : List TrustZoneCluster)
      → Tells error_text (configure error_text repo_path providers apis ds kube_config tzcs)
  unfolding configure
  configure-Tells kube_config tzcs =
      Tells-bind error_text _ _
        (watch_and_configure-Tells error_text named apis ds kube_config [] tzcs)
        λ written.
          Tells-then error_text _ _
            (apply_post_install_helm_config-Tells error_text named providers telling ds kube_config
              written tzcs)
            (Tells-then error_text _ _
              (watch_and_configure-Tells error_text named apis ds kube_config written tzcs)
              (Tells-pure error_text tt))

  roll_out-Tells :
      (opts : DeployOpts) (tzcs : List TrustZoneCluster) (federated : Bool)
      → Tells error_text (roll_out error_text repo_path providers apis ds opts tzcs federated)
  unfolding roll_out
  roll_out-Tells opts tzcs federated =
      Tells-report_bind error_text named _ _ _ (λ e. refl)
        λ w u q. Tells-then error_text _ _ (prepare-Tells opts.kube_cfg_file) (
          Tells-then error_text _ _
            (install_spire_stack-Tells error_text named providers telling ds opts.kube_cfg_file
              tzcs)
            (Tells-if error_text opts.skip_wait _ _ (Tells-pure error_text tt)
              (configure-Tells opts.kube_cfg_file tzcs)))

  -- A deployment reports how it ends, if the list of the federations does not fail.
  pub deploy-Tells :
      (lists : (f : Option FederationFilter) (w : W) (e : Error)
        → (ds.list_federations f w).0 ≢ err e)
      → (opts : DeployOpts) → Tells error_text (deploy error_text repo_path providers apis ds opts)
  unfolding deploy
  deploy-Tells lists opts =
      Tells-report_bind error_text named _ _ _ (λ e. refl)
        λ w tzcs q.
          Tells-bind error_text _ _ (Tells-silent error_text _ (lists _))
            λ feds. roll_out-Tells opts tzcs (not (is_empty feds))

  -- With `SkipWait` and a federation, a deployment whose zones are listed is refused: the watcher reads
  -- the error, and nothing was done but listing.
  pub deploy_skip_wait_refused :
      (opts : DeployOpts) (w : W) {w1 w2 : W} {tzcs : List TrustZoneCluster} {f : Federation}
      {fs : List Federation}
      → opts.skip_wait ≡ true
      → list_trust_zone_clusters ds opts.trust_zone_ids w ≡ (ok tzcs, w1)
      → ds.list_federations (some (record { trust_zone_id = none })) w1 ≡ (ok (f ∷ fs), w2)
      → let (r, s) =
          deploy error_text repo_path providers apis ds opts (record { sent = []; world = w }) in
        (r ≡ err skip_wait_with_federations)
        × (s.world ≡ w2)
        × (watch_provision_status s.sent ≡ err (library (error_text skip_wait_with_federations)))
  unfolding deploy roll_out or_report watch_provision_status
  deploy_skip_wait_refused opts w skip h k =
      rw (h, k, skip)
        (refl, refl, rw (test_of_ne (error_text skip_wait_with_federations) "" (named _)) refl)

module _ {W : Type 0} (error_text : Error → String) (repo_path : Option String)
    (providers : ProviderFactory W) (apis : SpireApiFactory W) (ds : DataSource W) where
  pub deploy_unreported :
      (opts : DeployOpts) (w : W) {w1 w2 : W} {tzcs : List TrustZoneCluster} {e : Error}
      → list_trust_zone_clusters ds opts.trust_zone_ids w ≡ (ok tzcs, w1)
      → ds.list_federations (some (record { trust_zone_id = none })) w1 ≡ (err e, w2)
      → deploy error_text repo_path providers apis ds opts (record { sent = []; world = w })
        ≡ (err e, record { sent = []; world = w2 })
  unfolding deploy or_report
  deploy_unreported opts w h k = rw (h, k) refl
