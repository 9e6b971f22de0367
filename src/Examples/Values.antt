-- ===== src/Examples/Values.antt =====
-- The Helm values of the cluster of the small configuration.
use cofidectl.Common.{◌≡◌, refl, String, Bool, true, false, Option, none, some}
use cofidectl.Common.Errors.{Result, ok}
use cofidectl.Values.{Fields, bool, object, no_fields, field}
use cofidectl.Config.Messages.{Bundle}
use cofidectl.Helm.Entries.{SpiffeId}
use cofidectl.Helm.Maps.{get}
use cofidectl.Helm.Maps.Laws.{MergedAt}
use cofidectl.Local.Source.{local_source}
use cofidectl.Helm.Generator.{HelmValuesGenerator, controller_manager_enabled, generate_values}
use cofidectl.Helm.Generator.Laws.{
  with_extra, without_extra, generate_values_extra, values_without_source, generate_values_disabled,
}
use cofidectl.Examples.Data.{copying, keeping, uuids, source, alpha, beta, cluster_one}

abbrev any_id : SpiffeId
any_id = record { trust_domain_from_string = λ s. ok s; from_path = λ td path. ok path }

abbrev no_bundle : Option Bundle → Result String
no_bundle b = ok "{}"

abbrev disabling : Fields
disabling =
    field "spire-server"
      (object
        (field "controllerManager" (object (field "enabled" (bool false) no_fields)) no_fields))
      no_fields

abbrev generator : HelmValuesGenerator
generator = record { trust_zone = beta; cluster = cluster_one; values = some disabling }

generate_values_disabled_example :
    generate_values (local_source copying keeping uuids) any_id no_bundle generator source
    ≡ (values_without_source generator, source)
unfolding controller_manager_enabled get
generate_values_disabled_example =
    generate_values_disabled (local_source copying keeping uuids) any_id no_bundle generator source
      refl

-- The generator for the trust zone with a binding and a federation, without custom values.
abbrev plain : HelmValuesGenerator
plain = record { trust_zone = alpha; cluster = cluster_one; values = none }

abbrev extra : Fields
extra =
    field "global"
      (object (field "deleteHooks" (object (field "enabled" (bool true) no_fields)) no_fields))
      no_fields

abbrev result_fields : Result Fields → Fields
result_fields (ok m) = m
result_fields _ = no_fields

abbrev full : Fields
full =
    result_fields
      (generate_values (local_source copying keeping uuids) any_id no_bundle
        (with_extra plain extra) source).0

generate_values_extra_example :
    (base : Fields) × (generate_values
        (local_source copying keeping uuids)
        any_id
        no_bundle
        (without_extra plain)
        source
      ≡ (ok base, source))
    × ((k : String) → MergedAt (get k base) (get k extra) (get k full))
unfolding generate_values local_source get cofidectl.Helm.Generator.combined_values
    cofidectl.Helm.Generator.fixed_sections cofidectl.Helm.Providers.new_trust_provider
    cofidectl.Helm.Providers.get_values cofidectl.Helm.Sections.global_values
    cofidectl.Helm.Sections.get_sds_config cofidectl.Helm.Sections.spire_agent_values
    cofidectl.Helm.Sections.spire_server_values cofidectl.Helm.Maps.get_or_create_nested_map
    cofidectl.Helm.Generator.server_entries cofidectl.Helm.Generator.controller_manager_enabled
    cofidectl.Helm.Generator.identities_for cofidectl.Helm.Maps.put
    cofidectl.Local.Bindings.list_ap_bindings cofidectl.Config.get_trust_zone_by_id
    cofidectl.Common.find_first cofidectl.Local.clone_all cofidectl.Common.filter
    cofidectl.Config.get_attestation_policy_by_id cofidectl.Helm.Generator.add_federations
    cofidectl.Helm.Generator.add_policies cofidectl.Helm.Generator.federate
    cofidectl.Helm.Maps.merge_fields cofidectl.Helm.Maps.merge_maps cofidectl.Helm.Maps.put_all
    cofidectl.Helm.Maps.shallow_merge cofidectl.Helm.Sections.ca_subject_values
    cofidectl.Helm.Sections.csi_driver_values cofidectl.Helm.Sections.oidc_discovery_provider_values
    cofidectl.Local.Federations.list_federations cofidectl.Local.Policies.get_attestation_policy
    cofidectl.Local.Zones.get_trust_zone cofidectl.Proto.clone_ap_binding
    cofidectl.Proto.clone_attestation_policy cofidectl.Proto.clone_federation
    cofidectl.Proto.clone_trust_zone
generate_values_extra_example =
    generate_values_extra (local_source copying keeping uuids) any_id no_bundle plain extra source
      (refl, tt) refl
