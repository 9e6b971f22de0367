-- ===== src/Helm/Sections.antt =====
-- pkg/provider/helm/values.go: the sections of the Helm values, each from its own struct. The maps of a
-- struct are not nil here, so the source's tests for nil have no counterpart.
use cofidectl.Common.{String, ◌==◌, Bool, true, not, Option, none, some, if◌then◌else◌}
use cofidectl.Common.Errors.{
  Result, ok, err, panic, wrap, ◌>>=◌, value_empty, sub_map_failed, invalid_profile,
}
use cofidectl.Values.{Value, Fields, bool, text, object, no_fields, field}
use cofidectl.Helm.Maps.{get_or_create_nested_map, put}
use cofidectl.Helm.Providers.{AgentConfig, ServerConfig}

pub record CaSubject : Type 0 where
  pub common_name : String
  pub country : String
  pub organization : String

pub record GlobalValues : Type 0 where
  pub delete_hooks : Bool
  pub install_and_upgrade_hooks_enabled : Bool
  pub spire_ca_subject : CaSubject
  pub spire_cluster_name : String
  pub spire_jwt_issuer : String
  pub spire_namespaces_create : Bool
  pub spire_recommendations_enabled : Bool
  pub spire_trust_domain : String

pub record SpireAgentValues : Type 0 where
  pub agent_config : AgentConfig
  pub fullname_override : String
  pub log_level : String
  pub sds_config : Fields

pub record SpireServerValues : Type 0 where
  pub ca_key_type : String
  pub ca_ttl : String
  pub controller_manager_enabled : Bool
  pub enabled : Bool
  pub fullname_override : String
  pub log_level : String
  pub server_config : ServerConfig
  pub service_type : String

-- `if value == "" { return nil, fmt.Errorf("… value is empty") }`
abbrev pub require : String → String → Result (Unit {0})
require name value = if value == "" then err (value_empty name) else ok tt

-- `len(m) == 0`
abbrev pub require_entries : String → Fields → Result (Unit {0})
require_entries name no_fields = err (value_empty name)
require_entries name (field k v m) = ok tt

abbrev pub one : String → Value → Fields
one k v = field k v no_fields

-- A change of the map at a key, which is made if it is not there; a write to a nil map is a panic.
abbrev pub put_back : String → (Fields → Result Fields) → Fields × Option Fields → Result Fields
put_back key f (m, none) = panic
put_back key f (m, some sub) = f sub >>= λ sub'. ok (put key (object sub') m)

abbrev pub nested : String → (Fields → Result Fields) → Fields → Result Fields
nested key f m =
    wrap (sub_map_failed key) (get_or_create_nested_map (some m) key) >>= put_back key f

-- `generateValues` of `caSubject`
unfoldable pub ca_subject_values : CaSubject → Fields
ca_subject_values c =
    field "country" (text c.country)
      (field "organization" (text c.organization) (one "commonName" (text c.common_name)))

abbrev pub global_map : GlobalValues → Fields
global_map g =
    let spire = field "caSubject" (object (ca_subject_values g.spire_ca_subject)) (
      field "clusterName" (text g.spire_cluster_name) (
        field "namespaces" (object (one "create" (bool g.spire_namespaces_create))) (
          field "recommendations" (object (one "enabled" (bool g.spire_recommendations_enabled)))
            (one "trustDomain" (text g.spire_trust_domain))))) in
    one "global" (
      object (
        field "spire" (object spire) (
          field "installAndUpgradeHooks"
            (object (one "enabled" (bool g.install_and_upgrade_hooks_enabled)))
            (one "deleteHooks" (object (one "enabled" (bool g.delete_hooks)))))))

-- `generateValues` of `globalValues`
unfoldable pub global_values : GlobalValues → Result Fields
global_values g = require "spireClusterName" g.spire_cluster_name >>= λ _.
    require "spireTrustDomain" g.spire_trust_domain >>= λ _.
    if not (g.spire_jwt_issuer == "")
    then nested "global"
        (nested "spire" (λ spire. ok (put "jwtIssuer" (text g.spire_jwt_issuer) spire)))
        (global_map g)
    else ok (global_map g)

-- `generateValues` of `spireAgentValues`
unfoldable pub spire_agent_values : SpireAgentValues → Result Fields
spire_agent_values s = require "fullnameOverride" s.fullname_override >>= λ _.
    require "logLevel" s.log_level >>= λ _.
    require "agentConfig.NodeAttestor" s.agent_config.node_attestor >>= λ _.
    require_entries "sdsConfig" s.sds_config >>= λ _.
    require "agentConfig.WorkloadAttestor" s.agent_config.workload_attestor >>= λ _.
    require_entries "agentConfig.WorkloadAttestorConfig" s.agent_config.workload_attestor_config
    >>= λ _. ok (
        one "spire-agent" (
          object (
            field "fullnameOverride" (text s.fullname_override) (
              field "logLevel" (text s.log_level) (
                field "nodeAttestor"
                  (object (one s.agent_config.node_attestor (object (one "enabled" (bool true)))))
                  (field "sds" (object s.sds_config) (
                    one "workloadAttestors" (
                      object (
                        one s.agent_config.workload_attestor
                          (object s.agent_config.workload_attestor_config))))))))))

abbrev pub server_map : SpireServerValues → Fields
server_map s = field "enabled" (bool s.enabled) (
    field "caKeyType" (text s.ca_key_type) (
      field "caTTL" (text s.ca_ttl) (
        field "controllerManager" (object (one "enabled" (bool s.controller_manager_enabled))) (
          field "fullnameOverride" (text s.fullname_override) (
            field "logLevel" (text s.log_level) (
              field "pruneAttestedNodesExpiredFor"
                (text s.server_config.prune_attested_nodes_expired_for)
                (field "pruneTOFUNodes" (bool s.server_config.prune_tofu_nodes) (
                  field "nodeAttestor"
                    (object (
                      one s.server_config.node_attestor
                        (object s.server_config.node_attestor_config)))
                    (one "service" (object (one "type" (text s.service_type))))))))))))

-- `generateValues` of `spireServerValues`
unfoldable pub spire_server_values : SpireServerValues → Result Fields
spire_server_values s =
    if not s.enabled
    then ok (one "spire-server" (object (one "enabled" (bool s.enabled))))
    else require "caKeyType" s.ca_key_type >>= λ _. require "caTTL" s.ca_ttl >>= λ _.
        require "fullnameOverride" s.fullname_override >>= λ _.
        require "logLevel" s.log_level >>= λ _.
        require "serverConfig.NodeAttestor" s.server_config.node_attestor >>= λ _.
        require_entries "serverConfig.NodeAttestorConfig" s.server_config.node_attestor_config
        >>= λ _. require "serviceType" s.service_type >>= λ _.
            ok (one "spire-server" (object (server_map s)))

-- `generateValues` of `spiffeOIDCDiscoveryProviderValues` and `spiffeCSIDriverValues`
unfoldable pub oidc_discovery_provider_values : Bool → Result Fields
oidc_discovery_provider_values enabled =
    ok (one "spiffe-oidc-discovery-provider" (object (one "enabled" (bool enabled))))

unfoldable pub csi_driver_values : String → Result Fields
csi_driver_values fullname_override = require "fullnameOverride" fullname_override >>= λ _.
    ok (one "spiffe-csi-driver" (object (one "fullnameOverride" (text fullname_override))))

abbrev pub sds_map : String → String → Fields
sds_map bundle all_bundles = field "enabled" (bool true) (
    field "defaultSVIDName" (text "default")
      (field "defaultBundleName" (text bundle) (one "defaultAllBundlesName" (text all_bundles))))

-- `getSDSConfig`
unfoldable pub get_sds_config : String → Result Fields
get_sds_config profile =
    if profile == "istio"
    then ok (sds_map "null" "ROOTCA")
    else if profile == "kubernetes"
    then ok (sds_map "ROOTCA" "ALL")
    else err (invalid_profile profile)
