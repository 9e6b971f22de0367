-- ===== src/Provision/Spire/Factory.antt =====
-- pkg/plugin/provision/spirehelm/providerfactory.go: the factory of Helm providers, whose methods are those
-- of pkg/provider/helm/helm.go.
use mathlib.Core.Path.{subst}
use cofidectl.Common.{◌≡◌, ◌≢◌, String, Bool, true, false, Option, none, some, [], ◌∷◌, arith}
use cofidectl.Common.Errors.{Error, Result, ok, err, panic}
use cofidectl.Common.Action.{Action, pure, lift, continue, ◌>>=◌}
use cofidectl.Values.{Fields, no_fields}
use cofidectl.Config.Messages.{TrustZone, Cluster, Bundle}
use cofidectl.DataSource.{DataSource}
use cofidectl.Helm.Entries.{SpiffeId}
use cofidectl.Helm.Generator.{generate_values}
use cofidectl.Provision.Helm.Repository.{add_repository, RepositoryFiles}
use cofidectl.Provision.Helm.{
  HelmSdk, HelmSpireProvider, with_kube_config, new_helm_spire_provider, check_if_already_installed,
}
use cofidectl.Provision.Helm.Execute.{
  execute, execute_post_install_upgrade, execute_upgrade, execute_uninstall,
}
use cofidectl.Provision.Helm.Laws.{
  add_repository-Tells, execute-Tells, execute_post_install_upgrade-Tells, execute_upgrade-Tells,
  execute_uninstall-Tells,
}
use cofidectl.Provision.Spire.Api.{Provider, ProviderFactory}
use cofidectl.Provision.Spire.Report.{TellsAll, BuildsTelling}

-- A nil trust zone or cluster, by what its getters return.
abbrev name_of : Option TrustZone → String
name_of none = ""
name_of (some tz) = tz.name

abbrev cluster_of : Option Cluster → Cluster
cluster_of none = record {
  id = none;
  name = none;
  trust_zone_id = none;
  kubernetes_context = none;
  trust_provider = none;
  profile = none;
  extra_helm_values = none;
  external_server = none;
  oidc_issuer_url = none;
  oidc_issuer_ca_cert = none;
}
cluster_of (some cluster) = cluster

module _ {W C F : Type 0} (sdk : HelmSdk W C) (files : RepositoryFiles W F)
    (repo_path : Option String) (lib : SpiffeId) (marshal_bundle : Option Bundle → Result String)
    (error_text : Error → String) where
  -- `HelmSPIREProvider` as a `Provider`
  abbrev provider_of : HelmSpireProvider → Provider W
  provider_of h = record {
    add_repository = add_repository files error_text h;
    execute = execute sdk repo_path error_text h;
    execute_post_install_upgrade = execute_post_install_upgrade sdk repo_path error_text h;
    execute_upgrade = execute_upgrade sdk repo_path error_text h;
    execute_uninstall = execute_uninstall sdk repo_path error_text h;
    check_if_already_installed =
        check_if_already_installed sdk repo_path h.settings h.spire_chart_name;
  }

  -- `GetHelmValues`
  unfoldable pub get_helm_values : DataSource W → TrustZone → Cluster → Action W Fields
  get_helm_values ds tz cluster =
      generate_values ds lib marshal_bundle
        (record { trust_zone = tz; cluster = cluster; values = none })

  -- The values of a build: the callers that want them pass a data source, a trust zone and a cluster.
  abbrev values_for :
      Option (DataSource W) → Option TrustZone → Option Cluster → Bool → Action W Fields
  values_for ds tz cluster false = pure no_fields
  values_for none tz cluster true = lift panic
  values_for (some ds) none cluster true = lift panic
  values_for (some ds) (some tz) none true = lift panic
  values_for (some ds) (some tz) (some cluster) true = get_helm_values ds tz cluster

  -- `Build`
  unfoldable pub build :
      Option (DataSource W)
      → Option TrustZone
      → Option Cluster
      → Bool
      → String
      → Action W (Provider W)
  build ds tz cluster gen_values kube_config = do
    values ← values_for ds tz cluster gen_values
    h ←
        new_helm_spire_provider sdk repo_path (name_of tz) (cluster_of cluster) values no_fields
          (with_kube_config kube_config ∷ [])
    pure (provider_of h)

  abbrev pub helm_spire_provider_factory : ProviderFactory W
  helm_spire_provider_factory = record { build = build; get_helm_values = get_helm_values }

  -- A provider that was made after other steps is the provider of some object.
  provider_made :
      (o : Result HelmSpireProvider × W) (p : Provider W)
      → (continue o.0 (λ h. pure (provider_of h)) o.1).0 ≡ ok p
      → (h : HelmSpireProvider) × (provider_of h ≡ p)
  provider_made (ok h, w) p e = (h, ground arith)
  provider_made (err x, w) p e = cc
  provider_made (panic, w) p e = cc

  module _ (named : (e : Error) → error_text e ≢ "") where
    provider_of-TellsAll : (h : HelmSpireProvider) → TellsAll error_text (provider_of h)
    provider_of-TellsAll h = record {
      add_repository = add_repository-Tells error_text named files h;
      execute = execute-Tells sdk repo_path error_text named h;
      execute_post_install_upgrade =
          execute_post_install_upgrade-Tells sdk repo_path error_text named h;
      execute_upgrade = execute_upgrade-Tells sdk repo_path error_text named h;
      execute_uninstall = execute_uninstall-Tells sdk repo_path error_text named h;
    }

    -- In each provider that the factory builds, each of the five methods that send messages
    -- (AddRepository, Execute, ExecutePostInstallUpgrade, ExecuteUpgrade, ExecuteUninstall) reports how
    -- it ends, whatever the Helm SDK does, if no error has the empty text.
    pub helm_spire_provider_factory-BuildsTelling :
        BuildsTelling error_text helm_spire_provider_factory
    unfolding build
    helm_spire_provider_factory-BuildsTelling = record {
      built = λ ds tz c values kube_config w p q.
          go (values_for ds tz c values w)
            (λ fields.
              new_helm_spire_provider sdk repo_path (name_of tz) (cluster_of c) fields no_fields
                (with_kube_config kube_config ∷ []))
            p q;
    }
      where
        go :
            (o : Result Fields × W) (made : Fields → Action W HelmSpireProvider) (p : Provider W)
            → (continue o.0 (λ fields. made fields >>= λ h. pure (provider_of h)) o.1).0 ≡ ok p
            → TellsAll error_text p
        go (ok fields, w) made p e =
            let (h, same) = provider_made (made fields w) p e in
            subst (λ (x : Provider W). TellsAll error_text x) same (provider_of-TellsAll h)
        go (err x, w) made p e = cc
        go (panic, w) made p e = cc
