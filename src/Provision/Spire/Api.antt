-- ===== src/Provision/Spire/Api.antt =====
-- pkg/provider/helm/provider.go, pkg/plugin/provision/spirehelm/providerfactory.go and spireapi.go: the
-- interfaces that the deployment uses, over a world `W`.
use cofidectl.Common.{String, Bool, Option}
use cofidectl.Common.Action.{Action}
use cofidectl.Values.{Fields}
use cofidectl.Config.Messages.{TrustZone, Cluster, Bundle}
use cofidectl.DataSource.{DataSource}
use cofidectl.Provision.{Sending}

-- `helm.Provider`
pub record Provider (W : Type 0) : Type 0 where
  pub add_repository : Action (Sending W) (Unit {0})
  pub execute : Action (Sending W) (Unit {0})
  pub execute_post_install_upgrade : Action (Sending W) (Unit {0})
  pub execute_upgrade : Action (Sending W) (Unit {0})
  pub execute_uninstall : Action (Sending W) (Unit {0})
  pub check_if_already_installed : Action W Bool

-- A nil data source, trust zone or cluster is `none`.
pub record ProviderFactory (W : Type 0) : Type 0 where
  pub build :
      Option (DataSource W)
      → Option TrustZone
      → Option Cluster
      → Bool
      → String
      → Action W (Provider W)
  pub get_helm_values : DataSource W → TrustZone → Cluster → Action W Fields

-- `SPIREAPI`
pub record SpireApi (W : Type 0) : Type 0 where
  pub wait_for_server_ip : Action W String
  pub get_bundle : Action W Bundle

-- `SPIREAPIFactory`
pub record SpireApiFactory (W : Type 0) : Type 0 where
  pub build : String → String → Action W (SpireApi W)
