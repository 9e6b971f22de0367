-- ===== src/Helm/Generator.antt =====
-- pkg/provider/helm/values.go: `GenerateValues`. The maps inside the values are written to in place in
-- the source; here a change of one is a change of the maps that hold it.
pub mod Laws
use cofidectl.Common.{
  String, ◌==◌, Bool, true, false, not, Option, none, some, List, [], ◌∷◌, if◌then◌else◌, get_text,
}
use cofidectl.Common.Errors.{
  Error, Result, ok, err, panic, wrap, sub_map_failed, list_failed, binding_kind,
}
use cofidectl.Common.Errors
use cofidectl.Common.Action.{Action, pure, lift, in_context, ◌>>=◌, ◌>>◌}
use cofidectl.Values
use cofidectl.Values.{Value, Fields, bool, text, object, no_fields, field}
use cofidectl.Config.Messages.{
  TrustZone, Cluster, Bundle, ApBinding, Federation, PolicySpec, unset, kubernetes, static,
  tpm_node,
}
use cofidectl.DataSource.{DataSource}
use cofidectl.Helm.Maps.{get, put, get_or_create_nested_map, merge_maps, shallow_merge}
use cofidectl.Helm.Entries.{SpiffeId, make_cluster_spiffe_id, make_cluster_static_entry}
use cofidectl.Helm.Providers.{ProviderValues, new_trust_provider, get_helm_config}
use cofidectl.Helm.Sections.{
  GlobalValues, SpireAgentValues, SpireServerValues, nested, one, global_values, spire_agent_values,
  spire_server_values, oidc_discovery_provider_values, csi_driver_values, get_sds_config,
}

-- `HelmValuesGenerator`, less the data source.
pub record HelmValuesGenerator : Type 0 where
  pub trust_zone : TrustZone
  pub cluster : Cluster
  pub values : Option Fields

-- `m[key].(map[string]any)`, and the entries of that map.
abbrev sub_fields : Option Value → Fields
sub_fields (some (object m)) = m
sub_fields _ = no_fields

abbrev bool_or : Bool → Option Value → Bool
bool_or default (some (bool b)) = b
bool_or default _ = default

-- The custom value of `spire-server.controllerManager.enabled`, true by default.
unfoldable pub controller_manager_enabled : Option Fields → Bool
controller_manager_enabled none = true
controller_manager_enabled (some values) =
    bool_or true (
      get "enabled" (sub_fields (get "controllerManager" (sub_fields (get "spire-server" values)))))

abbrev get_bool : Option Bool → Bool
get_bool none = false
get_bool (some b) = b

-- The sections that need no data source: global, agent and server.
pub record Fixed : Type 0 where
  pub global : Fields
  pub agent : Fields
  pub server : Fields

unfoldable pub fixed_sections : HelmValuesGenerator → Result Fixed
fixed_sections g = Errors.◌>>=◌ (new_trust_provider g.cluster.trust_provider) λ tp.
    Errors.◌>>=◌
      (global_values (record {
        delete_hooks = false;
        install_and_upgrade_hooks_enabled = false;
        spire_ca_subject = record {
          common_name = "cofide.io";
          country = "UK";
          organization = "Cofide";
        };
        spire_cluster_name = get_text g.cluster.name;
        spire_jwt_issuer = get_text g.trust_zone.jwt_issuer;
        spire_namespaces_create = true;
        spire_recommendations_enabled = true;
        spire_trust_domain = g.trust_zone.trust_domain;
      }))
      λ global. Errors.◌>>=◌ (get_sds_config (get_text g.cluster.profile)) λ sds.
        Errors.◌>>=◌
          (spire_agent_values (record {
            agent_config = tp.agent_config;
            fullname_override = "spire-agent";
            log_level = "DEBUG";
            sds_config = sds;
          }))
          λ agent.
            Errors.◌>>=◌
              (spire_server_values (record {
                ca_key_type = "rsa-2048";
                ca_ttl = "12h";
                controller_manager_enabled = controller_manager_enabled g.values;
                enabled = not (get_bool g.cluster.external_server);
                fullname_override = "spire-server";
                log_level = "DEBUG";
                server_config = tp.server_config;
                service_type = "LoadBalancer";
              }))
              λ server. ok (record { global = global; agent = agent; server = server })

-- The identities of the controller manager: `clusterSPIFFEIDs` and `clusterStaticEntries`.
pub record Identities : Type 0 where
  pub spiffe_ids : Fields
  pub static_entries : Fields

abbrev pub not_nil : Option Fields → Result Fields
not_nil none = panic
not_nil (some m) = ok m

abbrev pub merge_some : Option Fields → Fields → Result Fields
merge_some none combined = ok combined
merge_some (some values) combined = merge_maps (some combined) (some values)

module _ {D : Type 0} (ds : DataSource D) (lib : SpiffeId)
    (marshal_bundle : Option Bundle → Result String) where
  -- The entry of one policy.
  abbrev add_policy : String → PolicySpec → ApBinding → Identities → Action D Identities
  add_policy name unset binding ids = pure ids
  add_policy name (kubernetes k) binding ids = make_cluster_spiffe_id ds k binding >>= λ entry.
      pure (record ids { spiffe_ids = put name (object entry) ids.spiffe_ids })
  add_policy name (static s) binding ids = make_cluster_static_entry ds lib s binding >>= λ entry.
      pure (record ids { static_entries = put name (object entry) ids.static_entries })
  add_policy name (tpm_node t) binding ids = pure ids

  -- The loop over the bindings.
  unfoldable pub add_policies : List ApBinding → Identities → Action D Identities
  add_policies [] ids d = (ok ids, d)
  add_policies (binding ∷ rest) ids d =
      (ds.get_attestation_policy (get_text binding.policy_id) >>= λ policy.
      add_policy policy.name policy.spec binding ids >>= λ ids'. add_policies rest ids')
        d

  -- The map at a key of the map, for a change that reads the data source.
  abbrev pub nested_action : String → (Fields → Action D Fields) → Fields → Action D Fields
  nested_action key f m = do
    got ← lift (wrap (sub_map_failed key) (get_or_create_nested_map (some m) key))
    sub ← lift (not_nil got.1)
    sub' ← f sub
    pure (put key (object sub') got.0)

  -- What is added to the map `identities` for the bindings.
  unfoldable pub identities_for : TrustZone → Fields → Action D Fields
  identities_for tz identities = do
    got ← lift (
        wrap (sub_map_failed "clusterSPIFFEIDs")
          (get_or_create_nested_map (some identities) "clusterSPIFFEIDs"))
    csids ← lift (not_nil got.1)
    let csids' = put "default" (object (one "enabled" (bool false))) csids
    got' ← lift (
        wrap (sub_map_failed "clusterStaticEntries")
          (get_or_create_nested_map (some got.0) "clusterStaticEntries"))
    cses ← lift (not_nil got'.1)
    bindings ←
        in_context (list_failed binding_kind)
          (ds.list_ap_bindings (some (record { trust_zone_id = tz.id; policy_id = none })))
    ids ← add_policies bindings (record { spiffe_ids = csids'; static_entries = cses })
    pure (
        put "clusterStaticEntries" (object ids.static_entries)
          (put "clusterSPIFFEIDs" (object ids.spiffe_ids) got'.0))

  -- The entry of one federated trust zone in the map `spire-server`.
  unfoldable pub federate : TrustZone → Fields → Result Fields
  federate tz spire_server =
      if not (get_text tz.bundle_endpoint_url == "")
      then (Errors.◌>>=◌
          (nested "federation" (λ fed. ok (put "enabled" (bool true) fed)) spire_server)
          λ spire_server'.
            nested "controllerManager"
              (nested "identities" (
                nested "clusterFederatedTrustDomains" λ cftd.
                  Errors.◌>>=◌ (get_helm_config marshal_bundle tz)
                    λ config. ok (put tz.name (object config) cftd)))
              spire_server')
      else ok spire_server

  -- The loop over the federations.
  unfoldable pub add_federations : List Federation → Fields → Action D Fields
  add_federations [] spire_server d = (ok spire_server, d)
  add_federations (fed ∷ rest) spire_server d =
      (ds.get_trust_zone (get_text fed.remote_trust_zone_id) >>= λ tz.
      lift (federate tz spire_server) >>= λ spire_server'. add_federations rest spire_server')
        d

  -- What the data source adds to the map `spire-server`, if the controller manager is enabled.
  unfoldable pub server_entries : HelmValuesGenerator → Fields → Action D Fields
  server_entries g spire_server =
      if controller_manager_enabled g.values
      then (nested_action "controllerManager"
            (nested_action "identities" (identities_for g.trust_zone)) spire_server
          >>= λ spire_server'.
              ds.list_federations (some (record { trust_zone_id = g.trust_zone.id }))
              >>= λ federations. add_federations federations spire_server')
      else nested_action "controllerManager" (λ controller_manager. pure controller_manager)
          spire_server

  -- The sections put together, with the custom values, before the cluster's extra values.
  unfoldable pub combined_values : HelmValuesGenerator → Action D Fields
  combined_values g = do
    fixed ← lift (fixed_sections g)
    server ← nested_action "spire-server" (server_entries g) fixed.server
    oidc ← lift (oidc_discovery_provider_values false)
    csi ← lift (csi_driver_values "spiffe-csi-driver")
    lift (
        merge_some g.values (shallow_merge (fixed.global ∷ fixed.agent ∷ server ∷ oidc ∷ csi ∷ [])))

  -- `GenerateValues`
  unfoldable pub generate_values : HelmValuesGenerator → Action D Fields
  generate_values g = do
    combined ← combined_values g
    lift (merge_some g.cluster.extra_helm_values combined)
