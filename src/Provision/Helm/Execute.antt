-- ===== src/Provision/Helm/Execute.antt =====
-- pkg/provider/helm/helm.go: the methods of the provider that report on a channel.
use cofidectl.Common.{String, Option, get_text, if◌then◌else◌}
use cofidectl.Common.Errors.{Error}
use cofidectl.Common.Action.{Action, pure, ◌>>◌}
use cofidectl.Provision.Messages.{StatusBuilder, builder_ok, builder_done, builder_error}
use cofidectl.Provision.{Sending, send, or_report}
use cofidectl.Provision.Helm.{
  HelmSdk, HelmSpireProvider, install_spire, install_spire_crds, upgrade_spire, uninstall_spire,
  uninstall_spire_crds,
}

abbrev pub builder : HelmSpireProvider → StatusBuilder
builder h = record { trust_zone = h.trust_zone_name; cluster = get_text h.cluster.name }

module _ {W C : Type 0} (sdk : HelmSdk W C) (repo_path : Option String)
    (error_text : Error → String) where
  -- `statusCh <- Ok; err := step; if err != nil { statusCh <- Error; return err }`
  unfoldable pub step :
      HelmSpireProvider
      → String
      → String
      → String
      → Action W (Unit {0})
      → Action (Sending W) (Unit {0})
  step h stage starting failure m =
      send (builder_ok (builder h) stage starting)
      >> or_report (λ e. builder_error (builder h) stage failure (error_text e)) m

  -- `Execute`
  unfoldable pub execute : HelmSpireProvider → Action (Sending W) (Unit {0})
  unfolding install_spire install_spire_crds
  execute h = do
    if h.install_crds
        then step h "Installing" "Installing SPIRE CRDs" "Failed to install SPIRE CRDs"
            (install_spire_crds sdk repo_path h)
        else pure tt
    step h "Installing" "Installing SPIRE chart" "Failed to install SPIRE chart"
        (install_spire sdk repo_path h)
    send (builder_done (builder h) "Installed" "Installation completed")

  -- `ExecutePostInstallUpgrade`
  unfoldable pub execute_post_install_upgrade : HelmSpireProvider → Action (Sending W) (Unit {0})
  unfolding upgrade_spire
  execute_post_install_upgrade h = do
    step h "Configuring" "Applying post-installation configuration"
        "Failed to apply post-installation configuration" (upgrade_spire sdk repo_path h)
    send (builder_done (builder h) "Configured" "Post-installation configuration completed")

  -- `ExecuteUpgrade`
  unfoldable pub execute_upgrade : HelmSpireProvider → Action (Sending W) (Unit {0})
  unfolding upgrade_spire
  execute_upgrade h = do
    step h "Upgrading" "Upgrading SPIRE chart" "Failed to upgrade SPIRE chart"
        (upgrade_spire sdk repo_path h)
    send (builder_done (builder h) "Upgraded" "Upgrade completed")

  -- `ExecuteUninstall`
  unfoldable pub execute_uninstall : HelmSpireProvider → Action (Sending W) (Unit {0})
  unfolding uninstall_spire uninstall_spire_crds
  execute_uninstall h = do
    step h "Uninstalling" "Uninstalling SPIRE chart" "Failed to uninstall SPIRE chart"
        (uninstall_spire sdk repo_path h)
    if h.install_crds
        then step h "Uninstalling" "Uninstalling SPIRE CRDs" "Failed to uninstall SPIRE CRDs"
            (uninstall_spire_crds sdk repo_path h)
        else pure tt
    send (builder_done (builder h) "Uninstalled" "Uninstallation completed")
