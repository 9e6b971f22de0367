-- ===== src/Provision/Helm.antt =====
-- pkg/provider/helm/helm.go and provider.go: the provider that installs the SPIRE charts. The Helm SDK
-- is a parameter, and so are the environment variable `HELM_REPO_PATH` and the text of an error.
pub mod Charts
pub mod Repository
pub mod Execute
pub mod Laws
pub mod Releases
use cofidectl.Common.{
  String, ◌==◌, Bool, true, false, not, Option, none, some, List, [], ◌∷◌, if◌then◌else◌, get_text,
}
use cofidectl.Common.Errors.{
  Error, Result, ok, err, panic, wrap, not_installed, chart_status_failed, mkdir_failed,
  lock_failed, repo_create_failed, repo_load_failed, chart_repo_failed, index_failed,
  repo_write_failed,
}
use cofidectl.Common.Action.{Action, pure, lift, gets, fail_if, in_context, ◌>>=◌, ◌>>◌}
use cofidectl.Values.{Fields, no_fields}
use cofidectl.Config.Messages.{Cluster}
use cofidectl.Provision.Messages.{Status, StatusBuilder, status_ok, status_done, status_error}
use cofidectl.Provision.{Sending, send, or_report}
use cofidectl.Provision.Helm.Charts.{get_chart_ref}

-- The outcome of `history.Run` with at most one entry asked for: whether there is one, or
-- `driver.ErrReleaseNotFound`.
pub data History : Type 0 where
  releases : Bool → History
  release_not_found : History
  history_failed : Error → History

-- What a Helm action is made for: the kubeconfig and context of the settings.
pub record Settings : Type 0 where
  pub kube_config : String
  pub kube_context : String
  pub namespace : String

-- The Helm SDK: `cfg.Init`, `history.Run`, `LocateChart` with a version, `loader.Load`, the runs of
-- install, upgrade and uninstall, and `IsReachable`. `C` is a loaded chart.
pub record HelmSdk (W C : Type 0) : Type 0 where
  pub default_kube_config : W → String
  pub init : Settings → Action W (Unit {0})
  pub history : Settings → String → W → History × W
  pub locate_chart : Settings → String → String → Action W String
  pub load : String → Action W C
  pub install : Settings → String → C → Fields → Action W (Unit {0})
  pub upgrade : Settings → String → C → Fields → Action W (Unit {0})
  pub uninstall : Settings → String → Action W (Unit {0})
  pub is_reachable : Settings → Action W (Unit {0})

pub record HelmSpireProvider : Type 0 where
  pub settings : Settings
  pub spire_chart_name : String
  pub spire_crd_chart_name : String
  pub spire_chart_version : String
  pub spire_crd_chart_version : String
  pub spire_values : Fields
  pub spire_crds_values : Fields
  pub trust_zone_name : String
  pub cluster : Cluster
  pub spire_repository_url : String
  pub spire_repository_name : String
  pub install_crds : Bool

abbrev pub spire_management_namespace : String
spire_management_namespace = "spire-mgmt"

-- The options of a provider, by the functions that make them.
pub data ProviderOption : Type 0 where
  with_kube_config with_spire_repository_url with_spire_repository_name with_spire_chart_version
        with_spire_crds_chart_version with_spire_chart_name with_spire_crd_chart_name :
      String → ProviderOption
  with_install_spire_crds : Bool → ProviderOption

abbrev unless_empty : String → String → String
unless_empty default value = if not (value == "") then value else default

-- What an option does to a provider; an empty text changes nothing.
unfoldable pub apply_option : ProviderOption → HelmSpireProvider → HelmSpireProvider
apply_option (with_kube_config v) p = record p {
  settings = record p.settings { kube_config = unless_empty p.settings.kube_config v };
}
apply_option (with_spire_repository_url v) p = record p {
  spire_repository_url = unless_empty p.spire_repository_url v;
}
apply_option (with_spire_repository_name v) p = record p {
  spire_repository_name = unless_empty p.spire_repository_name v;
}
apply_option (with_spire_chart_version v) p = record p {
  spire_chart_version = unless_empty p.spire_chart_version v;
}
apply_option (with_spire_crds_chart_version v) p = record p {
  spire_crd_chart_version = unless_empty p.spire_crd_chart_version v;
}
apply_option (with_spire_chart_name v) p = record p {
  spire_chart_name = unless_empty p.spire_chart_name v;
}
apply_option (with_spire_crd_chart_name v) p = record p {
  spire_crd_chart_name = unless_empty p.spire_crd_chart_name v;
}
apply_option (with_install_spire_crds b) p = record p { install_crds = b }

unfoldable pub apply_options : List ProviderOption → HelmSpireProvider → HelmSpireProvider
apply_options [] p = p
apply_options (o ∷ os) p = apply_options os (apply_option o p)

-- The provider before its options are applied, with the kubeconfig of `cli.New()`.
abbrev pub default_provider : String → String → Cluster → Fields → Fields → HelmSpireProvider
default_provider default_config trust_zone_name cluster values crds_values = record {
  settings = record {
    kube_config = default_config;
    kube_context = get_text cluster.kubernetes_context;
    namespace = spire_management_namespace;
  };
  spire_chart_name = "spire";
  spire_crd_chart_name = "spire-crds";
  spire_chart_version = "0.27.1-cofide.0";
  spire_crd_chart_version = "0.5.0-cofide.1";
  spire_values = values;
  spire_crds_values = crds_values;
  trust_zone_name = trust_zone_name;
  cluster = cluster;
  spire_repository_url = "https://charts.cofide.dev";
  spire_repository_name = "cofide";
  install_crds = true;
}

module _ {W C : Type 0} (sdk : HelmSdk W C) (repo_path : Option String) where
  -- `NewHelmSPIREProvider`
  unfoldable pub new_helm_spire_provider :
      String → Cluster → Fields → Fields → List ProviderOption → Action W HelmSpireProvider
  unfolding apply_options
  new_helm_spire_provider trust_zone_name cluster values crds_values opts = do
    default_config ← gets sdk.default_kube_config
    let prov =
        apply_options opts
          (default_provider default_config trust_zone_name cluster values crds_values)
    sdk.init prov.settings
    pure prov

  abbrev ledger : History × W → Result Bool × W
  ledger (releases found, w) = (ok found, w)
  ledger (release_not_found, w) = (ok false, w)
  ledger (history_failed e, w) = (err e, w)

  -- `checkIfAlreadyInstalled`
  unfoldable pub check_if_already_installed : Settings → String → Action W Bool
  check_if_already_installed settings chart w = ledger (sdk.history settings chart w)

  abbrev loaded_chart : Settings → String → String → String → Action W C
  unfolding get_chart_ref
  loaded_chart settings repo_name chart version = do
    ref ← lift (get_chart_ref repo_path repo_name chart)
    path ← sdk.locate_chart settings ref version
    sdk.load path

  -- `installChart`
  unfoldable pub install_chart : Settings → String → String → String → Fields → Action W (Unit {0})
  unfolding check_if_already_installed loaded_chart
  install_chart settings repo_name chart version values = do
    installed ← in_context chart_status_failed (check_if_already_installed settings chart)
    if installed then pure tt else do
      c ← loaded_chart settings repo_name chart version
      sdk.install settings chart c values

  -- `upgradeChart`
  unfoldable pub upgrade_chart : Settings → String → String → String → Fields → Action W (Unit {0})
  unfolding check_if_already_installed loaded_chart
  upgrade_chart settings repo_name chart version values = do
    installed ← in_context chart_status_failed (check_if_already_installed settings chart)
    fail_if (not installed) (not_installed chart)
    c ← loaded_chart settings repo_name chart version
    sdk.upgrade settings chart c values

  -- `uninstallChart`
  unfoldable pub uninstall_chart : Settings → String → Action W (Unit {0})
  unfolding check_if_already_installed
  uninstall_chart settings chart = do
    installed ← in_context chart_status_failed (check_if_already_installed settings chart)
    if installed then sdk.uninstall settings chart else pure tt

  -- `installSPIRE`, `installSPIRECRDs`, `upgradeSPIRE`, `uninstallSPIRE` and `uninstallSPIRECRDs`
  unfoldable pub install_spire : HelmSpireProvider → Action W (Unit {0})
  unfolding install_chart
  install_spire h =
      install_chart h.settings h.spire_repository_name h.spire_chart_name h.spire_chart_version
        h.spire_values

  unfoldable pub install_spire_crds : HelmSpireProvider → Action W (Unit {0})
  unfolding install_chart
  install_spire_crds h =
      install_chart h.settings h.spire_repository_name h.spire_crd_chart_name
        h.spire_crd_chart_version h.spire_crds_values

  unfoldable pub upgrade_spire : HelmSpireProvider → Action W (Unit {0})
  unfolding upgrade_chart
  upgrade_spire h =
      upgrade_chart h.settings h.spire_repository_name h.spire_chart_name h.spire_chart_version
        h.spire_values

  unfoldable pub uninstall_spire : HelmSpireProvider → Action W (Unit {0})
  unfolding uninstall_chart
  uninstall_spire h = uninstall_chart h.settings h.spire_chart_name

  unfoldable pub uninstall_spire_crds : HelmSpireProvider → Action W (Unit {0})
  unfolding uninstall_chart
  uninstall_spire_crds h = uninstall_chart h.settings h.spire_crd_chart_name

  -- `IsClusterReachable` and `IsClusterDeployed`
  unfoldable pub is_cluster_reachable : Cluster → String → Action W (Unit {0})
  unfolding new_helm_spire_provider
  is_cluster_reachable cluster kube_config = do
    prov ←
        new_helm_spire_provider "" cluster no_fields no_fields (with_kube_config kube_config ∷ [])
    sdk.is_reachable prov.settings

  unfoldable pub is_cluster_deployed : Cluster → String → Action W Bool
  unfolding new_helm_spire_provider check_if_already_installed
  is_cluster_deployed cluster kube_config = do
    prov ←
        new_helm_spire_provider "" cluster no_fields no_fields (with_kube_config kube_config ∷ [])
    check_if_already_installed prov.settings prov.spire_chart_name
