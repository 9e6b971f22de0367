-- ===== src/Provision/Interface.antt =====
-- pkg/plugin/provision/interface.go: the interface of the provision plugins, over a world `W`. A channel
-- is given by the messages sent on it until it is closed.
use cofidectl.Common.{String, Bool, List}
use cofidectl.Common.Action.{Action}
use cofidectl.Values.{Fields}
use cofidectl.DataSource.{DataSource}
use cofidectl.Provision.Messages.{Status}

pub record DeployOpts : Type 0 where
  pub kube_cfg_file : String
  pub trust_zone_ids : List String
  pub skip_wait : Bool

pub record TearDownOpts : Type 0 where
  pub kube_cfg_file : String
  pub trust_zone_ids : List String

pub record Provision (W : Type 0) : Type 0 where
  pub validate : Action W (Unit {0})
  pub deploy : DataSource W → DeployOpts → Action W (List Status)
  pub tear_down : DataSource W → TearDownOpts → Action W (List Status)
  pub get_helm_values : DataSource W → String → Action W Fields
