-- ===== src/Config.antt =====
-- internal/pkg/config/config.go: the configuration and its lookups.
pub mod Messages
pub mod Loader
pub mod WellFormed
use cofidectl.Common.{
  String, ◌==◌, Bool, ◌&&◌, Option, none, some, List, [], find_first, filter, get_text, ◌≡◌, refl,
  ◌≢◌, arith,
}
use cofidectl.Values.{Fields}
use Messages.{TrustZone, Cluster, AttestationPolicy, ApBinding, Federation, Plugins}

-- `map[string]*structpb.Struct`, as the list of its entries.
abbrev pub PluginConfig : Type 0
PluginConfig = List (String × Fields)

-- A nil `PluginConfig` or `Plugins` is `none`.
pub record Config : Type 0 where
  pub trust_zones : List TrustZone
  pub clusters : List Cluster
  pub attestation_policies : List AttestationPolicy
  pub ap_bindings : List ApBinding
  pub federations : List Federation
  pub plugin_config : Option PluginConfig
  pub plugins : Option Plugins

abbrev pub empty_plugins : Plugins
empty_plugins = record { data_source = none; provision = none }

unfoldable pub new_config : Config
new_config = record {
  trust_zones = [];
  clusters = [];
  attestation_policies = [];
  ap_bindings = [];
  federations = [];
  plugin_config = some [];
  plugins = some empty_plugins;
}

-- The `config_proto.Config` message that the YAML encoding works on: the same fields.
pub record ConfigProto : Type 0 where
  pub trust_zones : List TrustZone
  pub clusters : List Cluster
  pub attestation_policies : List AttestationPolicy
  pub ap_bindings : List ApBinding
  pub federations : List Federation
  pub plugin_config : Option PluginConfig
  pub plugins : Option Plugins

abbrev pub or_empty : Option Plugins → Plugins
or_empty none = empty_plugins
or_empty (some plugins) = plugins

unfoldable pub new_config_from_proto : ConfigProto → Config
new_config_from_proto proto = record {
  trust_zones = proto.trust_zones;
  clusters = proto.clusters;
  attestation_policies = proto.attestation_policies;
  ap_bindings = proto.ap_bindings;
  federations = proto.federations;
  plugin_config = proto.plugin_config;
  plugins = some (or_empty proto.plugins);
}

unfoldable pub to_proto : Config → ConfigProto
to_proto c = record {
  trust_zones = c.trust_zones;
  clusters = c.clusters;
  attestation_policies = c.attestation_policies;
  ap_bindings = c.ap_bindings;
  federations = c.federations;
  plugin_config = c.plugin_config;
  plugins = c.plugins;
}

-- A configuration that has the maps which the readers of the file always make.
pub record IsComplete (c : Config) : Type 0 where
  pub has_plugins : c.plugins ≢ none
  pub has_plugin_config : c.plugin_config ≢ none

-- Reading back what `to_proto` wrote changes nothing, but that missing plugins come back empty.
pub new_config_from_proto-to_proto :
    (c : Config)
    → new_config_from_proto (to_proto c) ≡ record c { plugins = some (or_empty c.plugins) }
unfolding new_config_from_proto to_proto
new_config_from_proto-to_proto c = refl

pub round_trip_complete : (c : Config) → IsComplete c → new_config_from_proto (to_proto c) ≡ c
unfolding new_config_from_proto to_proto
round_trip_complete c h = ground (arith, h.has_plugins)

-- The tests that the lookups make.
abbrev pub zone_has_id : String → TrustZone → Bool
zone_has_id id tz = get_text tz.id == id

abbrev pub zone_has_name : String → TrustZone → Bool
zone_has_name name tz = tz.name == name

abbrev pub cluster_has_id : String → Cluster → Bool
cluster_has_id id cluster = get_text cluster.id == id

abbrev pub cluster_in_zone : String → Cluster → Bool
cluster_in_zone id cluster = get_text cluster.trust_zone_id == id

abbrev pub policy_has_id : String → AttestationPolicy → Bool
policy_has_id id policy = get_text policy.id == id

abbrev pub policy_has_name : String → AttestationPolicy → Bool
policy_has_name name policy = policy.name == name

module _ (c : Config) where
  unfoldable pub get_trust_zone_by_name : String → Option TrustZone
  get_trust_zone_by_name name = find_first (zone_has_name name) c.trust_zones

  unfoldable pub get_trust_zone_by_id : String → Option TrustZone
  get_trust_zone_by_id id = find_first (zone_has_id id) c.trust_zones

  unfoldable pub get_cluster_by_name : String → String → Option Cluster
  get_cluster_by_name name trust_zone_id =
      find_first (λ cluster. get_text cluster.name == name && cluster_in_zone trust_zone_id cluster)
        c.clusters

  unfoldable pub get_cluster_by_id : String → Option Cluster
  get_cluster_by_id id = find_first (cluster_has_id id) c.clusters

  unfoldable pub get_clusters_by_trust_zone : String → List Cluster
  get_clusters_by_trust_zone id = filter (cluster_in_zone id) c.clusters

  unfoldable pub get_attestation_policy_by_name : String → Option AttestationPolicy
  get_attestation_policy_by_name name = find_first (policy_has_name name) c.attestation_policies

  unfoldable pub get_attestation_policy_by_id : String → Option AttestationPolicy
  get_attestation_policy_by_id id = find_first (policy_has_id id) c.attestation_policies
