-- ===== src/Commands/Rollout/Outcome.antt =====
-- cmd/cofidectl/cmd/up.go and down.go: what the commands end with, over the SPIRE Helm plugin.
use cofidectl.Common.{◌≡◌, ◌≢◌, refl, String, Option, none, some, List, []}
use cofidectl.Common.Errors.{Error, Result, ok, err, panic}
use cofidectl.Common.Action.{lift, continue}
use cofidectl.Config.Messages.{TrustZone, FederationFilter}
use cofidectl.DataSource.{DataSource}
use cofidectl.Provision.{Sending, watch_provision_status}
use cofidectl.Provision.Tells.{Agrees, Told}
use cofidectl.Provision.Spire.Api.{ProviderFactory, SpireApiFactory}
use cofidectl.Provision.Spire.{TrustZoneCluster, list_trust_zone_clusters, tear_down}
use cofidectl.Provision.Spire.Deploy.{deploy}
use cofidectl.Provision.Spire.Plugin.{channel, spire_helm}
use cofidectl.Provision.Spire.Report.{
  BuildsTelling, deploy-Tells, tear_down-Tells, deploy_unreported,
}
use cofidectl.Commands.Rollout.{UpOpts, trust_zone_ids, up, down}

-- Watching the channel of a step that tells its outcome.
watched :
    (error_text : Error → String) {W A : Type 0} (o : Result A × Sending W)
    → Told error_text [] o
    → Agrees error_text o.0
        (continue
          (channel o).0
          (λ statuses. lift (watch_provision_status statuses))
          (channel o).1).0
watched error_text (ok a, s) t = rw t.grows t.agrees
watched error_text (err e, s) t = rw t.grows t.agrees
watched error_text (panic, s) t = tt

module _ {W : Type 0} (error_text : Error → String) (named : (e : Error) → error_text e ≢ "")
    (repo_path : Option String) (providers : ProviderFactory W)
    (telling : BuildsTelling error_text providers) (apis : SpireApiFactory W) (ds : DataSource W)
    (kube_cfg_file : String) where
  -- If the trust zones that are named exist, and the providers report how their methods end, `down` over
  -- the SPIRE Helm plugin ends with a success if the removal does, and if the removal ends with an error,
  -- with an error that has its text.
  pub down-Agrees :
      (names : List String) (w : W) {w1 : W} {tzs : List TrustZone} {ids : List String}
      → ds.list_trust_zones w ≡ (ok tzs, w1)
      → trust_zone_ids tzs names ≡ ok ids
      → Agrees error_text
          (tear_down error_text providers ds
            (record { kube_cfg_file = kube_cfg_file; trust_zone_ids = ids })
            (record { sent = []; world = w1 })).0
          (down ds (spire_helm error_text repo_path providers apis) kube_cfg_file names w).0
  unfolding down spire_helm
  down-Agrees names w {w1} h k =
      rw (h, k)
        (watched error_text _ ((tear_down-Tells error_text named providers telling ds _).at _))

  -- If the trust zones that are named exist, the list of the federations does not fail, and the providers
  -- report how their methods end, `up` over the SPIRE Helm plugin ends with a success if the
  -- deployment does, and if the deployment ends with an error, with an error that has its text.
  pub up-Agrees :
      (lists : (f : Option FederationFilter) (w : W) (e : Error)
        → (ds.list_federations f w).0 ≢ err e)
      → (opts : UpOpts) (w : W) {w1 : W} {tzs : List TrustZone} {ids : List String}
      → ds.list_trust_zones w ≡ (ok tzs, w1)
      → trust_zone_ids tzs opts.trust_zones ≡ ok ids
      → Agrees error_text
          (deploy error_text repo_path providers apis ds
            (record {
              kube_cfg_file = kube_cfg_file;
              trust_zone_ids = ids;
              skip_wait = opts.skip_wait;
            })
            (record { sent = []; world = w1 })).0
          (up ds (spire_helm error_text repo_path providers apis) kube_cfg_file opts w).0
  unfolding up spire_helm
  up-Agrees lists opts w {w1} h k =
      rw (h, k)
        (watched error_text _
          ((deploy-Tells error_text named repo_path providers telling apis ds lists _).at _))

module _ {W : Type 0} (error_text : Error → String) (repo_path : Option String)
    (providers : ProviderFactory W) (apis : SpireApiFactory W) (ds : DataSource W)
    (kube_cfg_file : String) where
  -- If the trust zones that are named exist and have their clusters listed, and the list of the
  -- federations fails, the deployment ends with that error, has sent no message, and has done nothing
  -- but listing; `up` over the SPIRE Helm plugin ends with a success all the same.
  pub up_unreported :
      (opts : UpOpts) (w : W) {w1 w2 w3 : W} {tzs : List TrustZone} {ids : List String}
      {tzcs : List TrustZoneCluster} {e : Error}
      → ds.list_trust_zones w ≡ (ok tzs, w1)
      → trust_zone_ids tzs opts.trust_zones ≡ ok ids
      → list_trust_zone_clusters ds ids w1 ≡ (ok tzcs, w2)
      → ds.list_federations (some (record { trust_zone_id = none })) w2 ≡ (err e, w3)
      → (deploy error_text repo_path providers apis ds
            (record {
              kube_cfg_file = kube_cfg_file;
              trust_zone_ids = ids;
              skip_wait = opts.skip_wait;
            })
            (record { sent = []; world = w1 })
          ≡ (err e, record { sent = []; world = w3 }))
        × (up ds (spire_helm error_text repo_path providers apis) kube_cfg_file opts w
            ≡ (ok tt, w3))
  unfolding up spire_helm watch_provision_status
  up_unreported opts w {w1} {ids = ids} h k l f =
      let silent =
        deploy_unreported error_text repo_path providers apis ds
          (record {
            kube_cfg_file = kube_cfg_file;
            trust_zone_ids = ids;
            skip_wait = opts.skip_wait;
          })
          w1 l f in
      (silent, rw (h, k, silent) refl)
